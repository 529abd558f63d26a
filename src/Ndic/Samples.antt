-- ===== src/Ndic/Samples.antt =====
-- The snapshot of one segment, for the examples.
use rio_t_preprocessors.Base.{ℕ, ◌*◌, String, none, some, []}
use rio_t_preprocessors.Base.Int.{pos}
use rio_t_preprocessors.Base.Time.{second}
use rio_t_preprocessors.Ndic.Model.{Snapshot}

abbrev pub snapshot : String → Snapshot ℕ
snapshot id = record {
  source_identification = id;
  event_time = pos (300 * second);
  primary_location_code = "100";
  secondary_location_code = "200";
  tmc_metadata = none;
  traffic_level_any_vehicle = some (pos 2);
  traffic_speed_any_vehicle = some 50;
  travel_time_any_vehicle = none;
  raw_entries = [];
}
