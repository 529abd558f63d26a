-- ===== src/Ndic/Runtime/Tests.antt =====
-- Examples for the runtime: two segments are published, one more was active before.
use rio_t_preprocessors.Base.{
  ℕ, true, not, ◌&&◌, ◌||◌, String, string_eq, if◌then◌else◌, List, [], ◌∷◌, ◌≡◌, refl, elem, ◌*◌,
  IsDistinct,
}
use rio_t_preprocessors.Base.Int.{pos, pos_part}
use rio_t_preprocessors.Base.Maps.{Dict, lookup}
use rio_t_preprocessors.Base.Time.{Time, second}
use rio_t_preprocessors.Commons.Sets.{from_slice}
use rio_t_preprocessors.Commons.Messages.{info_eq, RegistrationMessage, StateMessage}
use rio_t_preprocessors.Ndic.Model.{Snapshot, ParsedFetch, InstanceState, default_config}
use rio_t_preprocessors.Ndic.Samples.{snapshot}
use rio_t_preprocessors.Ndic.Runtime.{
  Runtime, Oracle, info, start_progress, should_register_instance, process_fetch_result,
  ndic_instance_uid,
}
use rio_t_preprocessors.Ndic.Runtime.Registration.{
  snapshot_uids, registered_uids, process_fetch_result-registrations,
}
use rio_t_preprocessors.Ndic.Runtime.Activity.{is_active, is_seen, process_fetch_result-activity}
use rio_t_preprocessors.Ndic.Runtime.Messages.{active_uids, inactive_uids}
use rio_t_preprocessors.Ndic.Runtime.Reports.{starts_late, process_fetch_result-reports}
use rio_t_preprocessors.Ndic.Runtime.Again.{process_fetch_result-again}

abbrev two_segments : Dict String (Snapshot ℕ)
two_segments = ("A", snapshot "A") ∷ ("B", snapshot "B") ∷ []

abbrev earlier : InstanceState
earlier = record {
  uid = "NDIC_TRAFFIC_C";
  label = "C";
  tags = [];
  seen_since_start = true;
  currently_active = true;
  last_event_time = pos (100 * second);
}

abbrev one_active : Runtime
one_active = record {
  sd_instances = from_slice (info "NDIC_TRAFFIC_A" true ∷ []);
  instance_states = ("NDIC_TRAFFIC_C", earlier) ∷ [];
  preprocessor_started_at = pos (50 * second);
}

abbrev oracle : Oracle
oracle = record { now = λ uid. pos (400 * second); draw = λ uid. 3; closing_draw = λ uid. 5 }

abbrev fetch : Time → ParsedFetch ℕ
fetch t = record { publication_time = t; snapshots = two_segments }

abbrev first : Runtime × List RegistrationMessage × List (StateMessage ℕ)
first = process_fetch_result pos_part default_config oracle (fetch (pos (350 * second))) one_active

process_fetch_result-registrations_example :
    IsDistinct {A = String} (registered_uids first.1)
    × ((x : String)
        → elem x (registered_uids first.1) ≡ (
            elem x (snapshot_uids two_segments)
            && should_register_instance one_active.sd_instances x))
    × ((x : String)
        → should_register_instance first.0.sd_instances x ≡ (
            not (elem x (snapshot_uids two_segments))
            && should_register_instance one_active.sd_instances x))
process_fetch_result-registrations_example =
    process_fetch_result-registrations pos_part default_config oracle (pos (350 * second))
      two_segments one_active

process_fetch_result-activity_example :
    (is_active (lookup "NDIC_TRAFFIC_C" first.0.instance_states)
      ≡ elem "NDIC_TRAFFIC_C" (snapshot_uids two_segments))
    × (is_seen (lookup "NDIC_TRAFFIC_C" first.0.instance_states) ≡ (
        elem "NDIC_TRAFFIC_C" (snapshot_uids two_segments)
        || is_seen (lookup "NDIC_TRAFFIC_C" one_active.instance_states)))
process_fetch_result-activity_example =
    process_fetch_result-activity pos_part default_config oracle (pos (350 * second)) two_segments
      one_active "NDIC_TRAFFIC_C"

two_segments-IsDistinct : IsDistinct (snapshot_uids two_segments)
unfolding ndic_instance_uid
two_segments-IsDistinct = (refl, (refl, tt))

process_fetch_result-reports_example :
    (active_uids first.2 ≡ snapshot_uids two_segments)
    × ((x : String)
        → elem x (inactive_uids first.2) ≡ (
            if elem x (snapshot_uids two_segments)
            then starts_late pos_part default_config oracle
                (pos (350 * second))
                (start_progress one_active)
                x
            else is_active (lookup x one_active.instance_states)))
process_fetch_result-reports_example =
    process_fetch_result-reports pos_part default_config oracle (pos (350 * second)) two_segments
      one_active two_segments-IsDistinct (refl, tt)

process_fetch_result-again_example :
    let second_run =
      process_fetch_result pos_part default_config oracle (fetch (pos (660 * second))) first.0 in
    (second_run.1 ≡ [])
    × (active_uids second_run.2 ≡ snapshot_uids two_segments)
    × (inactive_uids second_run.2 ≡ [])
process_fetch_result-again_example =
    process_fetch_result-again pos_part default_config oracle oracle (pos (350 * second))
      (pos (660 * second)) two_segments one_active two_segments-IsDistinct (refl, tt)
