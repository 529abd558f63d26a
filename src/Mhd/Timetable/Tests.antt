-- ===== src/Mhd/Timetable/Tests.antt =====
-- A timetable with one trip of line 1.
use rio_t_preprocessors.Base.{ℕ, ltb, String, string_eq, some, [], ◌∷◌, ◌≡◌, any_b, ◌==◌}
use rio_t_preprocessors.Base.Int.{ℤ, pos}
use rio_t_preprocessors.Base.Maps.{lookup}
use rio_t_preprocessors.Mhd.Model.{StopTimeRecord, TripCsvRecord, TripDefinition}
use rio_t_preprocessors.Mhd.Samples.{day_count, stop_at}
use rio_t_preprocessors.Mhd.Calendar.{CalendarRow}
use rio_t_preprocessors.Mhd.Timetable.{Tables, Library}
use rio_t_preprocessors.Mhd.Store.{new_gtfs_store, definitions_for, line_route_index_key}
use rio_t_preprocessors.Mhd.Timetable.Refresh.{refresh, definitions_for-refresh}
use rio_t_preprocessors.Mhd.Timetable.Index.{belongs}

abbrev plain_library : Library ℕ
plain_library = record { atoi = λ s. some (pos 8); sha256_hex = λ s. s; zero_float = 0 }

abbrev one_route : TripCsvRecord
one_route = record {
  trip_id = "7";
  route_id = "r";
  service_id = "5";
  trip_headsign = "";
  direction_id = "0";
  route_short_name = "1";
  line_id = "";
  live_route_id = "";
}

abbrev stop_time : String → ℤ → StopTimeRecord
stop_time id sequence = record {
  trip_id = "7";
  stop_id = id;
  arrival_time = "08:00:00";
  departure_time = "08:00:00";
  stop_sequence = sequence;
}

abbrev daily : CalendarRow
daily = record { service_id = "5"; start_date = pos 0; end_date = pos 100; days = λ day. ltb day 7 }

abbrev one_trip : Tables ℕ
one_trip = record {
  routes = ("r", one_route) ∷ [];
  stops = ("A", stop_at "A" 10) ∷ ("B", stop_at "B" 20) ∷ [];
  stop_times = ("7", stop_time "A" (pos 1) ∷ stop_time "B" (pos 2) ∷ []) ∷ [];
  trips = ("7", one_route) ∷ [];
  calendar = ("5", daily) ∷ [];
  calendar_dates = [];
  api_map = ("7", ("1", "2")) ∷ [];
}

abbrev one_trip_uid : String
one_trip_uid = "MHD_TRIP_r|08:00:00|A_B|0"

definitions_for-refresh_example :
    let loaded =
      (refresh plain_library day_count (λ t. "2026W01") (pos 1) (some one_trip) new_gtfs_store).0 in
    any_b (λ (d : TripDefinition ℕ). d.uid == one_trip_uid) (definitions_for loaded "1" "2")
    ≡ belongs (line_route_index_key "1" "2") (lookup one_trip_uid loaded.definitions_by_uid)
definitions_for-refresh_example =
    definitions_for-refresh plain_library day_count (λ t. "2026W01") (pos 1) one_trip new_gtfs_store
      "1" "2" one_trip_uid
