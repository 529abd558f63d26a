-- ===== src/Waze/Lifecycle/Tests.antt =====
-- Examples for the lifecycle: two jams on one segment, and an instance that was active before.
use rio_t_preprocessors.Base.{
  ℕ, ◌<◌, ◌*◌, true, not, ◌&&◌, String, string_eq, none, some, List, [], ◌∷◌, ◌++◌, ◌≡◌, refl,
  length, filter_b, IsDistinct, arith, arith,
}
use rio_t_preprocessors.Base.Int.{pos}
use rio_t_preprocessors.Base.Maps.{Dict, keys, lookup, has, insert}
use rio_t_preprocessors.Base.Time.{Time, second}
use rio_t_preprocessors.Base.Float.{whole}
use rio_t_preprocessors.Commons.Sets.{from_slice}
use rio_t_preprocessors.Commons.Messages.{info_eq, RegistrationMessage, StateMessage}
use rio_t_preprocessors.Commons.Json.{Members}
use rio_t_preprocessors.Waze.Model.{DeviceAggregate}
use rio_t_preprocessors.Waze.Samples.{conv, env, jam_at, segment}
use rio_t_preprocessors.Waze.Parsing.{
  member, parse_segments, collect_segments, segment_of, extract_maybe_int64, extract_maybe_bool,
  build_instance_uid,
}
use rio_t_preprocessors.Waze.Aggregation.{build_aggregates_from_jam, aggregate_of, merge_aggregate}
use rio_t_preprocessors.Waze.Lifecycle.{
  Runtime, info, gather_one, gather_all, aggregates_of, fetch_and_process,
}
use rio_t_preprocessors.Waze.Lifecycle.Gathering.{merge_into, of_segment, gather_all_lem}
use rio_t_preprocessors.Waze.Lifecycle.State.{is_new, registered_uids, fetch_and_process-state}
use rio_t_preprocessors.Waze.Lifecycle.Reports.{
  Encodes, jam_uids, clear_uids, starting, fetch_and_process-reports,
}
use rio_t_preprocessors.Waze.Lifecycle.Latest.{IsLatest, gather_all-IsLatest}

marshal_jams-Encodes : Encodes whole env
marshal_jams-Encodes [] h = absurd (omega arith)
marshal_jams-Encodes (j ∷ js) h = ("[{}]", refl, refl)

abbrev feed : List (Members ℕ × Time)
feed = (jam_at 3000, pos 0) ∷ (jam_at 4000, pos 0) ∷ []

abbrev gathered : Dict String (DeviceAggregate ℕ)
gathered = gather_all whole env (aggregates_of whole env feed) []

abbrev merged_jams : DeviceAggregate ℕ
merged_jams =
    merge_aggregate whole 999 conv (aggregate_of whole 999 conv (pos 0) (jam_at 3000) segment)
      (aggregate_of whole 999 conv (pos 0) (jam_at 4000) segment)

abbrev one_active : Runtime
one_active = record {
  sd_instances = from_slice (info "WAZE_JAM_2_FWD" true ∷ []);
  active_devices = ("WAZE_JAM_2_FWD", record { label = "2"; tags = [] }) ∷ [];
  preprocessor_started_at = pos (50 * second);
}

abbrev after : Runtime × List RegistrationMessage × List (StateMessage ℕ)
after = fetch_and_process whole env (some feed) (pos (100 * second)) one_active

gather_all_lem_example :
    IsDistinct (keys gathered)
    × ((x : String)
        → lookup x gathered
          ≡ merge_into whole env none (of_segment whole env x (aggregates_of whole env feed)))
    × ((x : String) (a : DeviceAggregate ℕ)
        → lookup x gathered ≡ some a
        → (a.uid ≡ x) × (length a.raw_jams ≡ a.jam_count) × (0 < a.jam_count))
gather_all_lem_example = gather_all_lem whole env feed

found_merged : lookup "WAZE_JAM_1_FWD" gathered ≡ some merged_jams
unfolding lookup gather_all aggregates_of build_aggregates_from_jam parse_segments member
    collect_segments segment_of extract_maybe_int64 extract_maybe_bool gather_one insert
    aggregate_of build_instance_uid
found_merged = refl

gather_all-IsLatest_example :
    IsLatest merged_jams (of_segment whole env "WAZE_JAM_1_FWD" (aggregates_of whole env feed))
gather_all-IsLatest_example =
    gather_all-IsLatest whole env feed "WAZE_JAM_1_FWD" merged_jams found_merged

fetch_and_process-state_example :
    (registered_uids after.1 ≡ filter_b (is_new one_active.sd_instances) (keys gathered))
    × ((x : String)
        → (is_new after.0.sd_instances x
            ≡ (is_new one_active.sd_instances x && not (has x gathered)))
          × (has x after.0.active_devices ≡ has x gathered))
fetch_and_process-state_example =
    fetch_and_process-state whole env feed (pos (100 * second)) one_active

fetch_and_process-reports_example :
    (jam_uids after.2 ≡ keys gathered)
    × (clear_uids after.2
        ≡ starting whole env one_active gathered
          ++ filter_b (λ x. not (has x gathered)) (keys one_active.active_devices))
fetch_and_process-reports_example =
    fetch_and_process-reports whole env feed (pos (100 * second)) one_active marshal_jams-Encodes
