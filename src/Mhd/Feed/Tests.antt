-- ===== src/Mhd/Feed/Tests.antt =====
-- Three rows of stop_times.txt.
use rio_t_preprocessors.Base.{
  ℕ, Bool, String, string_eq, ◌==◌, ◌&&◌, some, List, [], ◌∷◌, any_b, refl, ◌≡◌, if◌then◌else◌,
}
use rio_t_preprocessors.Base.Int.{ℤ, pos}
use rio_t_preprocessors.Base.Maps.{Dict, lookup, insert}
use rio_t_preprocessors.Base.Sorting.{sort_stable, insert_sorted}
use rio_t_preprocessors.Mhd.Model.{StopTimeRecord}
use rio_t_preprocessors.Mhd.Timetable.{or_nil}
use rio_t_preprocessors.Mhd.Feed.{
  Row, cell, cells, headers_from, read_rows, read_table, group, parse_stop_times_csv,
}
use rio_t_preprocessors.Mhd.Feed.Groups.{parse_stop_times_csv_lem}

abbrev count_atoi : String → ℤ
count_atoi s = if s == "2" then pos 2 else pos 1

abbrev stop_row : String → String → String → Row
stop_row trip stop sequence = trip ∷ "08:00:00" ∷ "08:01:00" ∷ stop ∷ sequence ∷ []

abbrev header_row : Row
header_row = "trip_id" ∷ "arrival_time" ∷ "departure_time" ∷ "stop_id" ∷ "stop_sequence" ∷ []

abbrev two_trips : List Row
two_trips = header_row ∷ stop_row "7" "B" "2" ∷ stop_row "8" "C" "1" ∷ stop_row "7" "A" "1" ∷ []

abbrev stop_record : String → String → ℕ → StopTimeRecord
stop_record trip stop sequence = record {
  trip_id = trip;
  stop_id = stop;
  arrival_time = "08:00:00";
  departure_time = "08:01:00";
  stop_sequence = pos sequence;
}

abbrev two_records : List StopTimeRecord
two_records = stop_record "7" "B" 2 ∷ stop_record "8" "C" 1 ∷ stop_record "7" "A" 1 ∷ []

abbrev two_groups : Dict String (List StopTimeRecord)
two_groups =
    ("7", stop_record "7" "A" 1 ∷ stop_record "7" "B" 2 ∷ [])
    ∷ ("8", stop_record "8" "C" 1 ∷ [])
    ∷ []

abbrev at_stop_a : StopTimeRecord → Bool
at_stop_a r = r.stop_id == "A"

parse_stop_times_csv_lem_example :
    any_b at_stop_a (or_nil (lookup "7" two_groups))
    ≡ any_b (λ (r : StopTimeRecord). r.trip_id == "7" && at_stop_a r) two_records
unfolding parse_stop_times_csv read_table read_rows headers_from cell cells lookup insert group
    sort_stable insert_sorted
parse_stop_times_csv_lem_example =
    parse_stop_times_csv_lem count_atoi (some two_trips) two_records two_groups "7" at_stop_a refl
      refl
