-- ===== src/Ndic/Runtime.antt =====
-- backend/ndic-preprocessor/src/runtime.go: the instances known to the platform, the state of each
-- instance, and the processing of one fetched publication.
-- The clock and the random numbers that a run reads are an `Oracle`; the messages that it hands to
-- the publishing functions are an `Output`.
pub mod Registration
pub mod Activity
pub mod Messages
pub mod Reports
pub mod Again
mod Tests
use rio_t_preprocessors.Base.{
  ℕ, Bool, true, false, not, ◌&&◌, String, string_eq, if◌then◌else◌, none, some, List, [], ◌∷◌,
  ◌++◌,
}
use rio_t_preprocessors.Base.Int.{ℤ, pos, ◌-ℤ◌, ltb_ℤ}
use rio_t_preprocessors.Base.Maps.{Dict, insert, lookup, has}
use rio_t_preprocessors.Base.Text.{◌⧺◌}
use rio_t_preprocessors.Base.Time.{Time, is_zero, after, jitter_time}
use rio_t_preprocessors.Commons.Sets.{Set, add, contains, from_slice}
use rio_t_preprocessors.Commons.Messages.{
  SdInstanceInfo, info_eq, StateMessage, RegistrationMessage,
}
use rio_t_preprocessors.Ndic.Model.{
  Snapshot, ParsedFetch, InstanceState, AppConfig, ndic_sd_type_uid,
}
use rio_t_preprocessors.Ndic.Labels.{build_ndic_instance_label, clone_tags}
use rio_t_preprocessors.Ndic.Publish.{
  build_tags, build_active_params, build_inactive_params, build_state_message,
  build_registration_message,
}

-- The package's variables.
pub record Runtime : Type 0 where
  pub sd_instances : Set SdInstanceInfo
  pub instance_states : Dict String InstanceState
  pub preprocessor_started_at : Time

-- What `time.Now` and `rand.Int63n` answer while the instance with this UID is handled, and while
-- it is closed.
pub record Oracle : Type 0 where
  pub now : String → Time
  pub draw : String → ℕ
  pub closing_draw : String → ℕ

unfoldable pub ndic_instance_uid : String → String
unfolding ◌⧺◌
ndic_instance_uid source_id = ndic_sd_type_uid ⧺ "_" ⧺ source_id

abbrev pub info : String → Bool → SdInstanceInfo
info uid confirmed = record { sd_instance_uid = uid; confirmed_by_user = confirmed }

unfoldable pub should_register_instance : Set SdInstanceInfo → String → Bool
should_register_instance sd_instances uid =
    if contains sd_instances (info uid true)
    then false
    else if contains sd_instances (info uid false)
    then false
    else true

unfoldable pub mark_instance_registered : Set SdInstanceInfo → String → Set SdInstanceInfo
mark_instance_registered sd_instances uid = add sd_instances (info uid false)

-- The consumer in `checkForSetOfSDInstancesUpdates`.
unfoldable pub update_sd_instances : Runtime → List SdInstanceInfo → Runtime
update_sd_instances rt payload = record rt { sd_instances = from_slice payload }

pub record Progress (F : Type 0) : Type 0 where
  pub runtime : Runtime
  pub current_uids : Dict String (Unit {0})
  pub registrations : List RegistrationMessage
  pub states : List (StateMessage F)

abbrev pub start_progress : {F : Type 0} → Runtime → Progress F
start_progress rt = record { runtime = rt; current_uids = []; registrations = []; states = [] }

-- `if shouldRegisterInstance(uid) { … markInstanceRegistered(uid) }` of the loop.
unfoldable pub register_snapshot :
    Oracle
    → String
    → String
    → Set SdInstanceInfo
    → List RegistrationMessage
    → Set SdInstanceInfo × List RegistrationMessage
register_snapshot o uid label sd_instances registrations =
    if should_register_instance sd_instances uid
    then (
      mark_instance_registered sd_instances uid,
      registrations ++ build_registration_message (o.now uid) uid label ∷ [],
    )
    else (sd_instances, registrations)

-- The state that the loop finds in the map, or makes.
unfoldable pub find_state :
    Dict String InstanceState → String → String → Dict String String → InstanceState
find_state states uid label tags = elim (lookup uid states) [
  | some state ↦ state
  | none ↦ record {
    uid = uid;
    label = label;
    tags = clone_tags tags;
    seen_since_start = false;
    currently_active = false;
    last_event_time = pos 0;
  }
]

unfoldable pub needs_synthetic_start :
    AppConfig → Oracle → Time → Time → String → InstanceState → Bool
needs_synthetic_start config o publication_time started_at uid state =
    not state.seen_since_start
    && after publication_time started_at
    && ltb_ℤ config.startup_grace_period (o.now uid -ℤ started_at)

unfoldable pub activate : String → Dict String String → Time → InstanceState → InstanceState
activate label tags event_time state = record state {
  label = label;
  tags = clone_tags tags;
  seen_since_start = true;
  currently_active = true;
  last_event_time = event_time;
}

-- The time of a snapshot, or that of the publication where it has none.
unfoldable pub snapshot_time : {F : Type 0} → Time → Snapshot F → Time
snapshot_time publication_time snapshot =
    if is_zero snapshot.event_time then publication_time else snapshot.event_time

-- The test of the loop in `closeMissingInstances`.
unfoldable pub is_missing : Dict String (Unit {0}) → String → InstanceState → Bool
is_missing current_uids uid state =
    if not state.currently_active then false else if has uid current_uids then false else true

module _ {F : Type 0} (float_of_int : ℤ → F) (config : AppConfig) (o : Oracle) where
  -- The synthetic message at the start of the run, if one is due, and the message with the data.
  unfoldable pub snapshot_messages :
      Time → Time → InstanceState → String → Snapshot F → List (StateMessage F)
  snapshot_messages publication_time started_at state uid snapshot =
      let active =
        build_state_message uid (snapshot_time publication_time snapshot)
          (build_active_params float_of_int (build_tags snapshot) snapshot) in
      if needs_synthetic_start config o publication_time started_at uid state
      then build_state_message uid (jitter_time (o.draw uid) started_at config.synthetic_jitter)
          (build_inactive_params (build_tags snapshot))
        ∷ active
        ∷ []
      else active ∷ []

  -- One round of the loop over the snapshots.
  unfoldable pub process_snapshot : Time → String → Snapshot F → Progress F → Progress F
  process_snapshot publication_time source_id snapshot p =
      let uid = ndic_instance_uid source_id in
      let label = build_ndic_instance_label (some snapshot) in
      let tags = build_tags snapshot in
      let rt = p.runtime in
      let (sd, registrations) = register_snapshot o uid label rt.sd_instances p.registrations in
      let state = find_state rt.instance_states uid label tags in
      let state' = activate label tags (snapshot_time publication_time snapshot) state in
      record {
        runtime = record rt {
          sd_instances = sd;
          instance_states = insert uid state' rt.instance_states;
        };
        current_uids = insert uid tt p.current_uids;
        registrations = registrations;
        states =
            p.states
            ++ snapshot_messages publication_time rt.preprocessor_started_at state uid snapshot;
      }

  unfoldable pub process_snapshots : Time → Dict String (Snapshot F) → Progress F → Progress F
  process_snapshots publication_time [] p = p
  process_snapshots publication_time ((source_id, snapshot) ∷ rest) p =
      process_snapshots publication_time rest
        (process_snapshot publication_time source_id snapshot p)

  -- The states after the loop, and the messages for what it closed.
  unfoldable pub close_missing :
      Time
      → Dict String (Unit {0})
      → Dict String InstanceState
      → Dict String InstanceState × List (StateMessage F)
  unfolding is_missing
  close_missing event_time current_uids [] = ([], [])
  close_missing event_time current_uids ((uid, state) ∷ rest) =
      let (states, messages) = close_missing event_time current_uids rest in
      if is_missing current_uids uid state
      then (
        (uid, record state { currently_active = false; last_event_time = event_time }) ∷ states,
        build_state_message uid
              (jitter_time (o.closing_draw uid) event_time config.synthetic_jitter)
              (build_inactive_params (clone_tags state.tags))
            ∷ messages,
      )
      else ((uid, state) ∷ states, messages)

  -- `processFetchResult`: the new state, and what is handed to `publishSDInstanceRegistrations` and
  -- to `publishStates`.
  unfoldable pub process_fetch_result :
      ParsedFetch F → Runtime → Runtime × List RegistrationMessage × List (StateMessage F)
  process_fetch_result fetch rt =
      let p = process_snapshots fetch.publication_time fetch.snapshots (start_progress rt) in
      let (states, closing) =
        close_missing fetch.publication_time p.current_uids p.runtime.instance_states in
      (record p.runtime { instance_states = states }, p.registrations, p.states ++ closing)
