-- ===== src/Mhd/Runtime.antt =====
-- backend/mhd-preprocessor/src/runtime.go: the instances known to the platform, the state of each
-- trip instance, the processing of a matched record and the closing of expired instances.
-- What a call publishes is a list of registrations and a list of state messages, in the order in
-- which they are handed to the publishing functions.
pub mod Activity
pub mod Closing
pub mod Reach
mod Tests
use rio_t_preprocessors.Base.{
  ℕ, Bool, true, false, not, ◌&&◌, String, string_eq, if◌then◌else◌, none, some, List, [], ◌∷◌,
  ◌++◌,
}
use rio_t_preprocessors.Base.Int.{pos, ◌-ℤ◌, ◌+ℤ◌, ltb_ℤ}
use rio_t_preprocessors.Base.Maps.{Dict, insert, lookup}
use rio_t_preprocessors.Base.Time.{Time, is_zero, after, jitter_time}
use rio_t_preprocessors.Base.Float.{Float64}
use rio_t_preprocessors.Commons.Sets.{Set, add, contains, from_slice}
use rio_t_preprocessors.Commons.Messages.{
  SdInstanceInfo, info_eq, StateMessage, RegistrationMessage,
}
use rio_t_preprocessors.Mhd.Model.{LiveRecord, TripMatch, InstanceState, AppConfig}
use rio_t_preprocessors.Mhd.Segment.{build_segment_match}
use rio_t_preprocessors.Mhd.Publish.{
  Formats, build_trip_tags, build_active_params, build_inactive_params, build_state_message,
  build_registration_message,
}

-- The package's variables.
pub record Runtime : Type 0 where
  pub sd_instances : Set SdInstanceInfo
  pub instance_states : Dict String InstanceState
  pub preprocessor_started_at : Time

abbrev pub info : String → Bool → SdInstanceInfo
info uid confirmed = record { sd_instance_uid = uid; confirmed_by_user = confirmed }

unfoldable pub should_register_instance : Set SdInstanceInfo → String → Bool
should_register_instance sd_instances uid =
    if contains sd_instances (info uid true)
    then false
    else if contains sd_instances (info uid false)
    then false
    else true

unfoldable pub mark_instance_registered : Set SdInstanceInfo → String → Set SdInstanceInfo
mark_instance_registered sd_instances uid = add sd_instances (info uid false)

-- The consumer in `checkForSetOfSDInstancesUpdates`.
unfoldable pub update_sd_instances : Runtime → List SdInstanceInfo → Runtime
update_sd_instances rt payload = record rt { sd_instances = from_slice payload }

-- `now` is the clock that the message reads.
unfoldable pub register_instance_if_needed :
    Time → String → String → Set SdInstanceInfo → Set SdInstanceInfo × List RegistrationMessage
register_instance_if_needed now uid label sd_instances =
    if not (should_register_instance sd_instances uid)
    then (sd_instances, [])
    else (mark_instance_registered sd_instances uid, build_registration_message now uid label ∷ [])

-- The loop of `cloneTags`.
unfoldable pub assign_all : Dict String String → Dict String String → Dict String String
assign_all [] acc = acc
assign_all ((key, value) ∷ rest) acc = assign_all rest (insert key value acc)

unfoldable pub clone_tags : Dict String String → Dict String String
unfolding assign_all
clone_tags tags = assign_all tags []

-- The state that the map holds, or a new one.
unfoldable pub find_state :
    Dict String InstanceState → String → String → Dict String String → InstanceState
find_state states uid label tags = elim (lookup uid states) [
  | some state ↦ state
  | none ↦ record {
    uid = uid;
    label = label;
    tags = clone_tags tags;
    seen_since_start = false;
    currently_active = false;
    close_at = pos 0;
    last_source_time = pos 0;
    last_occurrence_at = pos 0;
    last_vehicle_id = "";
  }
]

-- The answers of `time.Now` (for a registration, and in `time.Since`) and of `rand.Int63n`.
pub record Oracle : Type 0 where
  pub registered_at : Time
  pub now : Time
  pub draw : ℕ

-- The tests of the loop in `closeExpiredInstances`.
unfoldable pub should_close : Time → InstanceState → Bool
should_close now state =
    if not state.currently_active
    then false
    else not (is_zero state.close_at) && not (after state.close_at now)

module _ (fl : Float64) (formats : Formats) (config : AppConfig) where
  open fl use {F}

  -- The assignments to the state under the lock.
  unfoldable pub refresh_state :
      TripMatch F → LiveRecord F → Dict String String → InstanceState → InstanceState
  refresh_state m live tags state = record state {
    tags = clone_tags tags;
    seen_since_start = true;
    last_source_time = live.source_timestamp;
    last_occurrence_at = m.occurrence.scheduled_start;
    last_vehicle_id = live.vehicle_runtime_id;
    close_at = m.occurrence.scheduled_end +ℤ config.trip_end_reserve;
    currently_active = not live.is_inactive;
  }

  unfoldable pub needs_synthetic_start : Oracle → Time → InstanceState → Bool
  needs_synthetic_start o started_at state =
      not state.seen_since_start && ltb_ℤ config.startup_grace_period (o.now -ℤ started_at)

  -- What `processMatchedRecord` publishes after it has updated the state; `was` is the state before.
  unfoldable pub record_messages :
      Oracle → Time → InstanceState → TripMatch F → LiveRecord F → List (StateMessage F)
  record_messages o started_at was m live =
      let uid = m.definition.uid in
      let segment = build_segment_match fl (some m.definition) live in
      let tags = build_trip_tags formats m.definition m.occurrence live in
      let inactive = build_inactive_params tags in
      (if needs_synthetic_start o started_at was
        then build_state_message uid (jitter_time o.draw started_at config.synthetic_jitter)
            inactive
          ∷ []
        else [])
      ++ (if live.is_inactive
          then (if was.currently_active
              then build_state_message uid live.source_timestamp inactive ∷ []
              else [])
          else build_state_message uid live.source_timestamp
              (build_active_params formats tags live segment)
            ∷ [])

  unfoldable pub process_matched_record :
      Oracle
      → TripMatch F
      → LiveRecord F
      → Runtime
      → Runtime × List RegistrationMessage × List (StateMessage F)
  process_matched_record o m live rt =
      let uid = m.definition.uid in
      let tags = build_trip_tags formats m.definition m.occurrence live in
      let (sd, registrations) =
        register_instance_if_needed o.registered_at uid m.definition.label rt.sd_instances in
      let state = find_state rt.instance_states uid m.definition.label tags in
      (
        record rt {
          sd_instances = sd;
          instance_states = insert uid (refresh_state m live tags state) rt.instance_states;
        },
        registrations,
        record_messages o rt.preprocessor_started_at state m live,
      )

  -- `draw` answers `rand.Int63n` for each instance that is closed.
  unfoldable pub close_loop :
      (String → ℕ)
      → Time
      → Dict String InstanceState
      → Dict String InstanceState × List (StateMessage F)
  close_loop draw now [] = ([], [])
  close_loop draw now ((key, state) ∷ rest) =
      let (states, messages) = close_loop draw now rest in
      if should_close now state
      then (
        (key, record state { currently_active = false }) ∷ states,
        build_state_message state.uid
              (jitter_time (draw state.uid) state.close_at config.synthetic_jitter)
              (build_inactive_params (clone_tags state.tags))
            ∷ messages,
      )
      else ((key, state) ∷ states, messages)

  unfoldable pub close_expired_instances :
      (String → ℕ) → Time → Runtime → Runtime × List (StateMessage F)
  close_expired_instances draw now rt =
      let (states, messages) = close_loop draw now rt.instance_states in
      (record rt { instance_states = states }, messages)
