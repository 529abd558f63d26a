-- ===== src/Waze/Lifecycle/State.antt =====
-- What a feed registers, and which devices are active after it.
use rio_t_preprocessors.Base.{
  true, false, not, ◌&&◌, ◌||◌, String, string_eq, some, List, [], ◌∷◌, ◌++◌, ◌≡◌, Bool, append-nil,
  refl, arith, ap, sym, ◌∙◌, map, filter_b, elem, All, Bool-cases, inl, inr, append_assoc,
}
use rio_t_preprocessors.Base.Maps.{Dict, keys, lookup, lookup-insert, has, has-eq-elem}
use rio_t_preprocessors.Base.Time.{Time}
use rio_t_preprocessors.Base.Float.{Float64}
use rio_t_preprocessors.Commons.Sets.{Set, add, contains-add}
use rio_t_preprocessors.Waze.Aggregation.{clone_tags}
use rio_t_preprocessors.Commons.Messages.{SdInstanceInfo, info_eq, RegistrationMessage}
use rio_t_preprocessors.Commons.Json.{Members}
use rio_t_preprocessors.Waze.Model.{DeviceAggregate}
use rio_t_preprocessors.Waze.Publish.{build_registration_message}
use rio_t_preprocessors.Waze.Lifecycle.{
  Runtime, Environment, Progress, info, is_unknown, determine_sd_instance_scenario, add_registered,
  gather_all, aggregates_of, process_aggregate, process_aggregates, fetch_and_process,
}
use rio_t_preprocessors.Waze.Lifecycle.Gathering.{IsCounted, gathered-IsCounted}

-- The platform has not been told about the instance.
abbrev pub is_new : Set SdInstanceInfo → String → Bool
is_new sd_instances uid = is_unknown (determine_sd_instance_scenario sd_instances uid)

abbrev pub registered_uids : List RegistrationMessage → List String
registered_uids = map (λ r. r.sd_instance_uid)

registered_uids-append :
    (xs ys : List RegistrationMessage)
    → registered_uids (xs ++ ys) ≡ registered_uids xs ++ registered_uids ys
registered_uids-append [] ys = refl
registered_uids-append (x ∷ xs) ys = ap (◌∷◌ x.sd_instance_uid) (registered_uids-append xs ys)

is_new-add_registered :
    (messages : List RegistrationMessage) (sd : Set SdInstanceInfo) (x : String)
    → is_new (add_registered messages sd) x
      ≡ (is_new sd x && not (elem x (registered_uids messages)))
unfolding add_registered determine_sd_instance_scenario
is_new-add_registered [] sd x = ground arith
is_new-add_registered (r ∷ rest) sd x = ground (
  arith,
  is_new-add_registered rest (add sd (info r.sd_instance_uid false)) x,
  contains-add sd (info r.sd_instance_uid false) (info x true),
  contains-add sd (info r.sd_instance_uid false) (info x false),
  string_eq.beq_iff r.sd_instance_uid x,
)

elem-filter_b :
    (p : String → Bool) (xs : List String) (x : String)
    → elem x (filter_b p xs) ≡ (elem x xs && p x)
elem-filter_b p [] x = refl
elem-filter_b p (y ∷ ys) x = ground (arith, elem-filter_b p ys x, string_eq.beq_iff y x)

module _ (fl : Float64) (env : Environment fl) where
  open fl use {F}

  process_aggregates-registrations :
      (rt : Runtime) (m : Dict String (DeviceAggregate F)) (p : Progress F)
      → All (IsCounted fl env) m
      → registered_uids (process_aggregates fl env rt m p).registrations
        ≡ registered_uids p.registrations ++ filter_b (is_new rt.sd_instances) (keys m)
  unfolding process_aggregates process_aggregate build_registration_message
  process_aggregates-registrations rt [] p c = sym (append-nil (registered_uids p.registrations))
  process_aggregates-registrations rt ((uid, a) ∷ m) p c =
      let ih = process_aggregates-registrations rt m (process_aggregate fl env rt a p) c.1 in
      let regs = registered_uids p.registrations in
      let rest = filter_b (is_new rt.sd_instances) (keys m) in
      let message = build_registration_message a.uid a.label a.event_time in
      elim (Bool-cases (is_new rt.sd_instances a.uid)) [
        | inl y ↦
            ih
            ∙ rw (y, registered_uids-append p.registrations (message ∷ []))
                (rw (← c.0.0, y) (append_assoc regs (a.uid ∷ []) rest))
        | inr n ↦ ih ∙ rw n (rw (← c.0.0, n) refl)
      ]

  pub process_aggregates-current :
      (rt : Runtime) (m : Dict String (DeviceAggregate F)) (p : Progress F) (x : String)
      → All (IsCounted fl env) m
      → has x (process_aggregates fl env rt m p).current_devices
        ≡ (elem x (keys m) || has x p.current_devices)
  unfolding process_aggregates process_aggregate
  process_aggregates-current rt [] p x c = refl
  process_aggregates-current rt ((uid, a) ∷ m) p x c = ground (
    arith,
    c.0.0,
    process_aggregates-current rt m (process_aggregate fl env rt a p) x c.1,
    lookup-insert a.uid x (record { label = a.label; tags = clone_tags a.tags }) p.current_devices,
    string_eq.beq_iff uid x,
  )

  -- A feed registers exactly the instances that have a jam in it and are not known to the platform,
  -- and then they are known. The active devices are afterwards exactly those with a jam in the feed.
  pub fetch_and_process-state :
      (jams : List (Members F × Time)) (now : Time) (rt : Runtime)
      → let after = fetch_and_process fl env (some jams) now rt in
        let gathered = gather_all fl env (aggregates_of fl env jams) [] in
        (registered_uids after.1 ≡ filter_b (is_new rt.sd_instances) (keys gathered))
        × ((x : String)
            → (is_new after.0.sd_instances x ≡ (is_new rt.sd_instances x && not (has x gathered)))
              × (has x after.0.active_devices ≡ has x gathered))
  unfolding fetch_and_process lookup
  fetch_and_process-state jams now rt =
      let gathered = gather_all fl env (aggregates_of fl env jams) [] in
      let c = gathered-IsCounted fl env jams in
      let p : Progress F = record { current_devices = []; registrations = []; states = [] } in
      let r = process_aggregates-registrations rt gathered p c in
      let after = (process_aggregates fl env rt gathered p).registrations in
      (
        r,
        λ x. (
          ground (
            arith,
            is_new-add_registered after rt.sd_instances x,
            elem-filter_b (is_new rt.sd_instances) (keys gathered) x,
            ap (elem x) r,
            has-eq-elem x gathered,
          ),
          ground (arith, process_aggregates-current rt gathered p x c, has-eq-elem x gathered),
        ),
      )
