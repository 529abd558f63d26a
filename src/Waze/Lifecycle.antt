-- ===== src/Waze/Lifecycle.antt =====
-- backend/wazejam-preprocessor/src/lifecycle.go: the processing of one fetched feed. A fetch that
-- fails, or whose body is no feed, changes nothing. The loop over a jam's aggregates reads the clock
-- once for the jam, so a feed is a list of jams with these readings.
pub mod Gathering
pub mod State
pub mod Reports
pub mod Latest
mod Tests
use rio_t_preprocessors.Base.{
  ℕ, Bool, true, false, not, ◌&&◌, String, string_eq, if◌then◌else◌, Option, none, some, List, [],
  ◌∷◌, ◌++◌,
}
use rio_t_preprocessors.Base.Maps.{Dict, insert, lookup, has}
use rio_t_preprocessors.Base.Time.{Time}
use rio_t_preprocessors.Base.Float.{Float64}
use rio_t_preprocessors.Commons.Sets.{Set, add, contains, from_slice}
use rio_t_preprocessors.Commons.Messages.{
  SdInstanceInfo, info_eq, Param, StateMessage, RegistrationMessage,
}
use rio_t_preprocessors.Commons.Json.{Members}
use rio_t_preprocessors.Waze.Model.{DeviceSnapshot, DeviceAggregate}
use rio_t_preprocessors.Waze.Parsing.{Conversions}
use rio_t_preprocessors.Waze.Aggregation.{
  clone_tags, build_startup_zero_delay_event_time, should_publish_startup_zero_delay,
  merge_aggregate, build_aggregates_from_jam, build_active_params, build_zero_delay_params,
}
use rio_t_preprocessors.Waze.Publish.{build_state_message, build_registration_message}

-- The package's variables.
pub record Runtime : Type 0 where
  pub sd_instances : Set SdInstanceInfo
  pub active_devices : Dict String DeviceSnapshot
  pub preprocessor_started_at : Time

pub data Scenario : Type 0 where
  confirmed not_yet_confirmed unknown : Scenario

abbrev pub info : String → Bool → SdInstanceInfo
info uid is_confirmed = record { sd_instance_uid = uid; confirmed_by_user = is_confirmed }

unfoldable pub determine_sd_instance_scenario : Set SdInstanceInfo → String → Scenario
determine_sd_instance_scenario sd_instances uid =
    if contains sd_instances (info uid true)
    then confirmed
    else if contains sd_instances (info uid false)
    then not_yet_confirmed
    else unknown

abbrev pub is_unknown : Scenario → Bool
is_unknown unknown = true
is_unknown _ = false

-- The consumer in `checkForSetOfSDInstancesUpdates`.
unfoldable pub update_sd_instances : Runtime → List SdInstanceInfo → Runtime
update_sd_instances rt payload = record rt { sd_instances = from_slice payload }

abbrev pub was_device_active : Dict String DeviceSnapshot → String → Bool
was_device_active active_devices uid = has uid active_devices

-- The loop at the end, over the registrations that were published.
unfoldable pub add_registered : List RegistrationMessage → Set SdInstanceInfo → Set SdInstanceInfo
add_registered [] sd_instances = sd_instances
add_registered (message ∷ rest) sd_instances =
    add_registered rest (add sd_instances (info message.sd_instance_uid false))

pub record Progress (F : Type 0) : Type 0 where
  pub current_devices : Dict String DeviceSnapshot
  pub registrations : List RegistrationMessage
  pub states : List (StateMessage F)

-- What the functions of the package leave to the libraries.
pub record Environment (fl : Float64) : Type 0 where
  pub minus_one : fl.F
  pub conv : Conversions fl.F
  pub of_count : ℕ → fl.F
  pub marshal : List (Members fl.F) → Option String
  pub hash : String → ℕ

module _ (fl : Float64) (env : Environment fl) where
  open fl use {F}

  -- One round of the inner loop that gathers the aggregates.
  unfoldable pub gather_one :
      Dict String (DeviceAggregate F) → DeviceAggregate F → Dict String (DeviceAggregate F)
  gather_one aggregates aggregate = elim (lookup aggregate.uid aggregates) [
    | none ↦ insert aggregate.uid aggregate aggregates
    | some existing ↦
        insert aggregate.uid (merge_aggregate fl env.minus_one env.conv existing aggregate)
          aggregates
  ]

  unfoldable pub gather_all :
      List (DeviceAggregate F) → Dict String (DeviceAggregate F) → Dict String (DeviceAggregate F)
  gather_all [] aggregates = aggregates
  gather_all (aggregate ∷ rest) aggregates = gather_all rest (gather_one aggregates aggregate)

  -- The aggregates of all jams, in the order of the two loops.
  unfoldable pub aggregates_of : List (Members F × Time) → List (DeviceAggregate F)
  aggregates_of [] = []
  aggregates_of ((jam, now) ∷ rest) =
      build_aggregates_from_jam fl env.minus_one env.conv now jam ++ aggregates_of rest

  -- The message that an instance starts without delay, if one is due, and its data.
  unfoldable pub aggregate_messages : Runtime → DeviceAggregate F → List (StateMessage F)
  aggregate_messages rt aggregate =
      let active =
        build_state_message aggregate.uid aggregate.event_time
          (build_active_params fl env.minus_one env.conv env.of_count env.marshal aggregate) in
      if not (was_device_active rt.active_devices aggregate.uid)
        && should_publish_startup_zero_delay rt.preprocessor_started_at aggregate.event_time
      then build_state_message aggregate.uid
          (build_startup_zero_delay_event_time env.hash aggregate.uid aggregate.event_time)
          (build_zero_delay_params fl env.minus_one env.conv aggregate.tags)
        ∷ active
        ∷ []
      else active ∷ []

  -- One round of the loop over the aggregates; the variables of the package are only read.
  unfoldable pub process_aggregate : Runtime → DeviceAggregate F → Progress F → Progress F
  process_aggregate rt aggregate p = record {
    current_devices =
        insert aggregate.uid (record { label = aggregate.label; tags = clone_tags aggregate.tags })
          p.current_devices;
    registrations =
        if is_unknown (determine_sd_instance_scenario rt.sd_instances aggregate.uid)
        then p.registrations
          ++ build_registration_message aggregate.uid aggregate.label aggregate.event_time ∷ []
        else p.registrations;
    states = p.states ++ aggregate_messages rt aggregate;
  }

  unfoldable pub process_aggregates :
      Runtime → Dict String (DeviceAggregate F) → Progress F → Progress F
  process_aggregates rt [] p = p
  process_aggregates rt ((uid, aggregate) ∷ rest) p =
      process_aggregates rt rest (process_aggregate rt aggregate p)

  -- The loop over the devices of the previous feed.
  unfoldable pub closing_messages :
      Time → Dict String DeviceSnapshot → Dict String DeviceSnapshot → List (StateMessage F)
  closing_messages now current_devices [] = []
  closing_messages now current_devices ((uid, snapshot) ∷ rest) =
      let later = closing_messages now current_devices rest in
      if has uid current_devices
      then later
      else build_state_message uid now
          (build_zero_delay_params fl env.minus_one env.conv snapshot.tags)
        ∷ later

  -- `none` stands for a fetch that failed. The result is the new state, and what is handed to
  -- `publishSDInstanceRegistrations` and to `publishStates`.
  unfoldable pub fetch_and_process :
      Option (List (Members F × Time))
      → Time
      → Runtime
      → Runtime × List RegistrationMessage × List (StateMessage F)
  fetch_and_process none now rt = (rt, [], [])
  fetch_and_process (some jams) now rt =
      let aggregates = gather_all (aggregates_of jams) [] in
      let p : Progress F =
        process_aggregates rt aggregates
          (record { current_devices = []; registrations = []; states = [] }) in
      (
        record rt {
          sd_instances = add_registered p.registrations rt.sd_instances;
          active_devices = p.current_devices;
        },
        p.registrations,
        p.states ++ closing_messages now p.current_devices rt.active_devices,
      )
