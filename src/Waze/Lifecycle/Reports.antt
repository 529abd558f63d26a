-- ===== src/Waze/Lifecycle/Reports.antt =====
-- Which state messages a feed publishes.
use rio_t_preprocessors.Base.{
  ◌<◌, Bool, true, false, not, ◌&&◌, String, string_eq, ◌==◌, if◌then◌else◌, Option, some, List, [],
  ◌∷◌, ◌++◌, ◌≡◌, refl, arith, ap, sym, ◌∙◌, map, length, filter_b, All, Bool-cases, inl, inr,
  append_assoc, append-nil,
}
use rio_t_preprocessors.Base.Maps.{Dict, keys, lookup, has, lookup-insert_self, has-eq-elem}
use rio_t_preprocessors.Base.Time.{Time}
use rio_t_preprocessors.Base.Float.{Float64}
use rio_t_preprocessors.Commons.Messages.{Param, text, StateMessage}
use rio_t_preprocessors.Commons.Json.{Members}
use rio_t_preprocessors.Waze.Model.{DeviceSnapshot, DeviceAggregate}
use rio_t_preprocessors.Waze.Parsing.{sort_raw_jams}
use rio_t_preprocessors.Waze.Aggregation.{
  build_startup_zero_delay_event_time, build_active_params, build_zero_delay_params,
  should_publish_startup_zero_delay,
}
use rio_t_preprocessors.Waze.Publish.{build_state_message}
use rio_t_preprocessors.Waze.Lifecycle.{
  Runtime, Environment, Progress, gather_all, aggregates_of, aggregate_messages, process_aggregate,
  process_aggregates, closing_messages, fetch_and_process,
}
use rio_t_preprocessors.Waze.Lifecycle.Gathering.{IsCounted, gathered-IsCounted, length-sort_stable}
use rio_t_preprocessors.Waze.Lifecycle.State.{process_aggregates-current}

abbrev is_no_jams : {F : Type 0} → Option (Param F) → Bool
is_no_jams (some (text s)) = s == "[]"
is_no_jams _ = false

-- The message says that no jam is left on its instance.
abbrev pub reports_no_jam : {F : Type 0} → StateMessage F → Bool
reports_no_jam m = is_no_jams (lookup "rawJams" m.parameters)

-- The instances that messages report with a jam, and without one, in order.
abbrev pub jam_uids : {F : Type 0} → List (StateMessage F) → List String
jam_uids ms = map (λ m. m.sd_instance_uid) (filter_b (λ m. not (reports_no_jam m)) ms)

abbrev pub clear_uids : {F : Type 0} → List (StateMessage F) → List String
clear_uids ms = map (λ m. m.sd_instance_uid) (filter_b reports_no_jam ms)

selected-append {ℓ κ} :
    {A : Type ℓ} {B : Type κ} (f : A → B) (p : A → Bool) (xs ys : List A)
    → map f (filter_b p (xs ++ ys)) ≡ map f (filter_b p xs) ++ map f (filter_b p ys)
selected-append f p [] ys = refl
selected-append f p (x ∷ xs) ys = elim (Bool-cases (p x)) [
  | inl y ↦ rw y (ap (◌∷◌ (f x)) (selected-append f p xs ys))
  | inr n ↦ rw n (selected-append f p xs ys)
]

module _ (fl : Float64) (env : Environment fl) where
  open fl use {F}

  -- `json.Marshal` of at least one jam gives a text, which is not that of the empty list.
  abbrev pub Encodes : Type 0
  Encodes =
      (jams : List (Members F))
      → 0 < length jams
      → (raw : String) × (env.marshal jams ≡ some raw) × ((raw == "[]") ≡ false)

  -- The instance was not active in the feed before, and its jams are not older than the program's run.
  abbrev pub starts_here : Runtime → DeviceAggregate F → Bool
  starts_here rt a =
      not (has a.uid rt.active_devices)
      && should_publish_startup_zero_delay rt.preprocessor_started_at a.event_time

  no_jam-zero :
      (uid : String) (t : Time) (tags : Dict String String)
      → reports_no_jam
          (build_state_message uid t (build_zero_delay_params fl env.minus_one env.conv tags))
        ≡ true
  unfolding build_state_message build_zero_delay_params
  no_jam-zero uid t tags = rw lookup-insert_self refl

  no_jam-active :
      (uid : String) (t : Time) (a : DeviceAggregate F)
      → Encodes
      → 0 < length a.raw_jams
      → reports_no_jam (
          build_state_message uid t
            (build_active_params fl env.minus_one env.conv env.of_count env.marshal a))
        ≡ false
  unfolding build_state_message build_active_params sort_raw_jams
  no_jam-active uid t a enc h =
      let (raw, found, other) =
        enc (sort_raw_jams env.conv a.raw_jams)
          (omega (arith, h, length-sort_stable _ a.raw_jams)) in
      rw (build_active_params, found) (rw lookup-insert_self other)

  aggregate_messages-uids :
      (rt : Runtime) (a : DeviceAggregate F)
      → Encodes
      → 0 < length a.raw_jams
      → (jam_uids (aggregate_messages fl env rt a) ≡ a.uid ∷ [])
        × (clear_uids (aggregate_messages fl env rt a)
            ≡ (if starts_here rt a then a.uid ∷ [] else []))
  unfolding aggregate_messages build_state_message
  aggregate_messages-uids rt a enc h = ground (
    arith,
    no_jam-active a.uid a.event_time a enc h,
    no_jam-zero a.uid (build_startup_zero_delay_event_time env.hash a.uid a.event_time) a.tags,
  )

  -- The UIDs of the entries that start with this feed.
  abbrev pub starting : Runtime → Dict String (DeviceAggregate F) → List String
  starting rt m = map (λ e. e.1.uid) (filter_b (λ e. starts_here rt e.1) m)

  starting-cons :
      (rt : Runtime) (uid : String) (a : DeviceAggregate F) (m : Dict String (DeviceAggregate F))
      → starting rt ((uid, a) ∷ m) ≡ (if starts_here rt a then a.uid ∷ [] else []) ++ starting rt m
  starting-cons rt uid a m = elim (Bool-cases (starts_here rt a)) [
    | inl y ↦ rw y refl
    | inr n ↦ rw n refl
  ]

  process_aggregates-uids :
      (rt : Runtime) (m : Dict String (DeviceAggregate F)) (p : Progress F)
      → Encodes
      → All (IsCounted fl env) m
      → (jam_uids (process_aggregates fl env rt m p).states ≡ jam_uids p.states ++ keys m)
        × (clear_uids (process_aggregates fl env rt m p).states
            ≡ clear_uids p.states ++ starting rt m)
  unfolding process_aggregates process_aggregate
  process_aggregates-uids rt [] p enc c =
      (sym (append-nil (jam_uids p.states)), sym (append-nil (clear_uids p.states)))
  process_aggregates-uids rt ((uid, a) ∷ m) p enc c =
      let ih = process_aggregates-uids rt m (process_aggregate fl env rt a p) enc c.1 in
      let own = aggregate_messages-uids rt a enc (omega (arith, c.0.1, c.0.2)) in
      let messages = aggregate_messages fl env rt a in
      let jam_split =
        selected-append (λ m. m.sd_instance_uid) (λ m. not (reports_no_jam m)) p.states messages in
      let clear_split = selected-append (λ m. m.sd_instance_uid) reports_no_jam p.states messages in
      (
        ih.0
            ∙ ap (λ l. l ++ keys m) (jam_split ∙ ap (λ l. jam_uids p.states ++ l) own.0)
            ∙ append_assoc (jam_uids p.states) (a.uid ∷ []) (keys m)
            ∙ ap (λ u. jam_uids p.states ++ u ∷ keys m) c.0.0,
        ih.1
            ∙ ap (λ l. l ++ starting rt m) (clear_split ∙ ap (λ l. clear_uids p.states ++ l) own.1)
            ∙ append_assoc (clear_uids p.states) (if starts_here rt a then a.uid ∷ [] else [])
                (starting rt m)
            ∙ ap (λ l. clear_uids p.states ++ l) (sym (starting-cons rt uid a m)),
      )

  closing_messages-uids :
      (now : Time) (current previous : Dict String DeviceSnapshot)
      → (jam_uids (closing_messages fl env now current previous) ≡ [])
        × (clear_uids (closing_messages fl env now current previous)
            ≡ filter_b (λ x. not (has x current)) (keys previous))
  unfolding closing_messages build_state_message
  closing_messages-uids now current [] = (refl, refl)
  closing_messages-uids now current ((uid, snapshot) ∷ rest) =
      ground (arith, closing_messages-uids now current rest, no_jam-zero uid now snapshot.tags)

  not_in_feed :
      (current : Dict String DeviceSnapshot) (m : Dict String (DeviceAggregate F)) (l : List String)
      → ((x : String) → has x current ≡ has x m)
      → filter_b (λ x. not (has x current)) l ≡ filter_b (λ x. not (has x m)) l
  not_in_feed current m [] h = refl
  not_in_feed current m (x ∷ l) h = ground (arith, h x, not_in_feed current m l h)

  -- Where `json.Marshal` gives at least one jam a text, and not that of the empty list:
  -- A feed's messages report each instance that has a jam in it, once and in order. They report as
  -- clear first the instances that the feed starts, then those that were active and have no jam in
  -- it any more.
  pub fetch_and_process-reports :
      (jams : List (Members F × Time)) (now : Time) (rt : Runtime)
      → Encodes
      → let messages = (fetch_and_process fl env (some jams) now rt).2 in
        let gathered = gather_all fl env (aggregates_of fl env jams) [] in
        (jam_uids messages ≡ keys gathered)
        × (clear_uids messages
            ≡ starting rt gathered ++ filter_b (λ x. not (has x gathered)) (keys rt.active_devices))
  unfolding fetch_and_process lookup
  fetch_and_process-reports jams now rt enc =
      let gathered = gather_all fl env (aggregates_of fl env jams) [] in
      let c = gathered-IsCounted fl env jams in
      let p : Progress F = record { current_devices = []; registrations = []; states = [] } in
      let p' : Progress F = process_aggregates fl env rt gathered p in
      let own = process_aggregates-uids rt gathered p enc c in
      let closing = closing_messages-uids now p'.current_devices rt.active_devices in
      let later = closing_messages fl env now p'.current_devices rt.active_devices in
      let current = λ (x : String). process_aggregates-current fl env rt gathered p x c in
      (
        selected-append (λ m. m.sd_instance_uid) (λ m. not (reports_no_jam m)) p'.states later
            ∙ ap (λ l. jam_uids p'.states ++ l) closing.0
            ∙ append-nil (jam_uids p'.states)
            ∙ own.0,
        selected-append (λ m. m.sd_instance_uid) reports_no_jam p'.states later
            ∙ ap (λ l. l ++ clear_uids later) own.1
            ∙ ap (λ l. starting rt gathered ++ l)
                (closing.1
                  ∙ not_in_feed p'.current_devices gathered (keys rt.active_devices)
                      (λ x. ground (arith, current x, has-eq-elem x gathered))),
      )
