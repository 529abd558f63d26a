-- ===== src/Mhd/Runtime/Activity.antt =====
-- What a matched record changes and publishes.
use rio_t_preprocessors.Base.{
  Bool, true, false, not, ◌&&◌, String, string_eq, ◌==◌, if◌then◌else◌, Option, none, some, List,
  [], ◌∷◌, ◌≡◌, refl, arith, map, filter_b,
}
use rio_t_preprocessors.Base.Int.{ltb_ℤ, ◌-ℤ◌, ◌+ℤ◌}
use rio_t_preprocessors.Base.Maps.{Dict, lookup, lookup-insert, lookup-insert_self}
use rio_t_preprocessors.Base.Time.{Time}
use rio_t_preprocessors.Base.Float.{Float64}
use rio_t_preprocessors.Commons.Sets.{Set, contains-add}
use rio_t_preprocessors.Commons.Messages.{
  SdInstanceInfo, info_eq, Param, flag, StateMessage, RegistrationMessage,
}
use rio_t_preprocessors.Mhd.Model.{LiveRecord, TripMatch, InstanceState, AppConfig}
use rio_t_preprocessors.Mhd.Publish.{
  Formats, build_trip_tags, tags_to_params, build_inactive_params, build_state_message,
  build_registration_message,
}
use rio_t_preprocessors.Mhd.Runtime.{
  Runtime, Oracle, info, should_register_instance, mark_instance_registered,
  register_instance_if_needed, clone_tags, find_state, refresh_state, process_matched_record,
}

abbrev pub is_active : Option InstanceState → Bool
is_active none = false
is_active (some state) = state.currently_active

abbrev pub is_seen : Option InstanceState → Bool
is_seen none = false
is_seen (some state) = state.seen_since_start

abbrev is_set : {F : Type 0} → Option (Param F) → Bool
is_set (some (flag b)) = b
is_set _ = false

-- The message says that its instance is inactive.
abbrev pub reports_inactive : {F : Type 0} → StateMessage F → Bool
reports_inactive m = is_set (lookup "isinactive" m.parameters)

abbrev pub active_uids : {F : Type 0} → List (StateMessage F) → List String
active_uids ms = map (λ m. m.sd_instance_uid) (filter_b (λ m. not (reports_inactive m)) ms)

abbrev pub inactive_uids : {F : Type 0} → List (StateMessage F) → List String
inactive_uids ms = map (λ m. m.sd_instance_uid) (filter_b reports_inactive ms)

-- Which instance a message is about, its time, and whether it says that the instance is inactive.
abbrev pub summary : {F : Type 0} → StateMessage F → String × Time × Bool
summary m = (m.sd_instance_uid, m.event_time, reports_inactive m)

pub reports_inactive-inactive :
    (F : Type 0) (uid : String) (t : Time) (tags : Dict String String)
    → reports_inactive {F = F} (build_state_message uid t (build_inactive_params tags)) ≡ true
unfolding build_state_message build_inactive_params
reports_inactive-inactive F uid t tags =
    rw (lookup-insert_self "isinactive" (flag true) (tags_to_params {F = F} tags))

pub should_register-mark :
    (sd : Set SdInstanceInfo) (uid x : String)
    → should_register_instance (mark_instance_registered sd uid) x
      ≡ (not (uid == x) && should_register_instance sd x)
unfolding should_register_instance mark_instance_registered
should_register-mark sd uid x = ground (
  arith,
  contains-add sd (info uid false) (info x true),
  contains-add sd (info uid false) (info x false),
  string_eq.beq_iff uid x,
)

module _ (fl : Float64) (formats : Formats) (config : AppConfig) (o : Oracle) (m : TripMatch fl.F)
    (live : LiveRecord fl.F) (rt : Runtime) where
  open fl use {F}

  abbrev outcome : Runtime × List RegistrationMessage × List (StateMessage F)
  outcome = process_matched_record fl formats config o m live rt

  -- The instance was not seen since the start, and the grace period is over.
  abbrev pub starts_late : Bool
  starts_late =
      not (is_seen (lookup m.definition.uid rt.instance_states))
      && ltb_ℤ config.startup_grace_period (o.now -ℤ rt.preprocessor_started_at)

  -- The state of the instance after the record: what the record and the occurrence say, under the
  -- identification and the label that are known.
  abbrev pub matched_state : InstanceState
  matched_state = record {
    uid = elim (lookup m.definition.uid rt.instance_states) [
      | none ↦ m.definition.uid
      | some state ↦ state.uid
    ];
    label = elim (lookup m.definition.uid rt.instance_states) [
      | none ↦ m.definition.label
      | some state ↦ state.label
    ];
    tags = clone_tags (build_trip_tags formats m.definition m.occurrence live);
    seen_since_start = true;
    currently_active = not live.is_inactive;
    close_at = m.occurrence.scheduled_end +ℤ config.trip_end_reserve;
    last_source_time = live.source_timestamp;
    last_occurrence_at = m.occurrence.scheduled_start;
    last_vehicle_id = live.vehicle_runtime_id;
  }

  refresh_state-matched_state :
      (found : Option InstanceState)
      → lookup m.definition.uid rt.instance_states ≡ found
      → refresh_state fl formats config m live
          (build_trip_tags formats m.definition m.occurrence live)
          (find_state rt.instance_states m.definition.uid m.definition.label
            (build_trip_tags formats m.definition m.occurrence live))
        ≡ matched_state
  unfolding refresh_state find_state
  refresh_state-matched_state none h = rw (find_state, h) refl
  refresh_state-matched_state (some state) h = rw (find_state, h) refl

  -- A matched record registers its instance if that was not known, and then it is known. It makes the
  -- instance seen, active unless the record says that the vehicle is inactive, and due for closing
  -- after the end of the occurrence and the reserve, and keeps the record's time, vehicle and tags. It
  -- changes no field of any other instance, and not the start of the program.
  pub process_matched_record-state :
      (x : String)
      → (map (λ r. r.sd_instance_uid) outcome.1 ≡ (
          if should_register_instance rt.sd_instances m.definition.uid
          then m.definition.uid ∷ []
          else []))
        × (should_register_instance outcome.0.sd_instances x
            ≡ (not (m.definition.uid == x) && should_register_instance rt.sd_instances x))
        × (lookup x outcome.0.instance_states
            ≡ (if m.definition.uid == x then some matched_state else lookup x rt.instance_states))
        × (outcome.0.preprocessor_started_at ≡ rt.preprocessor_started_at)
  unfolding process_matched_record register_instance_if_needed build_registration_message
  process_matched_record-state x =
      let uid = m.definition.uid in
      (
        ground arith,
        ground (arith, should_register-mark rt.sd_instances uid x, string_eq.beq_iff uid x),
        rw (← refresh_state-matched_state (lookup uid rt.instance_states) refl)
            (lookup-insert uid x _ rt.instance_states),
        refl,
      )
