-- ===== src/Mhd/Feed.antt =====
-- backend/mhd-preprocessor/src/gtfs_store.go: the parsing of the timetable's files, from the rows on that
-- `encoding/csv` reads. An index out of range of a row is a panic.
pub mod Groups
mod Tests
use Prim.Native.Char.{code}
use rio_t_preprocessors.Base.{
  ℕ, zero, suc, Bool, true, false, ◌&&◌, String, string_eq, nat_eq, ◌==◌, if◌then◌else◌, Option,
  none, some, List, [], ◌∷◌, ◌++◌, map, get_elem?, ltb,
}
use rio_t_preprocessors.Base.Int.{ℤ, pos, ltb_ℤ}
use rio_t_preprocessors.Base.Maps.{Dict, lookup, insert}
use rio_t_preprocessors.Base.Sorting.{sort_stable}
use rio_t_preprocessors.Base.Time.{Time}
use rio_t_preprocessors.Commons.Kpi.Json.{Outcome, decoded, failed, panicked}
use rio_t_preprocessors.Mhd.Model.{StopMetadata, StopTimeRecord, TripCsvRecord}
use rio_t_preprocessors.Mhd.Calendar.{Location, CalendarRow, CalendarDateException, map_gtfs_date}
use rio_t_preprocessors.Mhd.Timetable.{or_nil}

abbrev pub Row : Type 0
Row = List String

-- `strings.TrimPrefix(header, "\ufeff")`
abbrev pub trim_mark : String → String
trim_mark String.[] = String.[]
trim_mark (String.◌∷◌ c s) = if code c == 0xfeff then s else String.◌∷◌ c s

-- The column of each header; of two headers with one name the later one counts.
unfoldable pub headers_from : ℕ → Row → Dict String ℕ → Dict String ℕ
headers_from idx [] headers = headers
headers_from idx (header ∷ rest) headers =
    headers_from (suc idx) rest (insert (trim_mark header) idx headers)

-- `row[headers[name]]`; a header that is missing reads as column 0.
abbrev pub column : Option ℕ → ℕ
column none = 0
column (some idx) = idx

unfoldable pub cell : Dict String ℕ → Row → String → Option String
cell headers row name = get_elem? row (column (lookup name headers))

abbrev with_cell : Option String → Option Row → Option Row
with_cell (some s) (some rest) = some (s ∷ rest)
with_cell _ _ = none

unfoldable pub cells : Dict String ℕ → Row → List String → Option Row
cells headers row [] = some []
cells headers row (name ∷ names) = with_cell (cell headers row name) (cells headers row names)

-- A record from the values of a row under these names.
abbrev made {ℓ} : {R : Type ℓ} → (Row → R) → Option Row → Option R
made make none = none
made make (some values) = some (make values)

abbrev record_of {ℓ} : {R : Type ℓ} → (Row → R) → List String → Dict String ℕ → Row → Option R
record_of make names headers row = made make (cells headers row names)

module _ {R : Type 0} (read : Dict String ℕ → Row → Option R) where
  abbrev with_record : Option R → Option (List R) → Option (List R)
  with_record (some r) (some records) = some (r ∷ records)
  with_record _ _ = none

  -- One record for each row.
  unfoldable pub read_rows : Dict String ℕ → List Row → Option (List R)
  read_rows headers [] = some []
  read_rows headers (row ∷ rest) = with_record (read headers row) (read_rows headers rest)

  abbrev or_panicked : Option (List R) → Outcome (List R)
  or_panicked none = panicked
  or_panicked (some records) = decoded records

  -- The rows that `parseCSVRows` gives, without any for an empty file; `none` is its error.
  unfoldable pub read_table : Option (List Row) → Outcome (List R)
  read_table none = failed
  read_table (some []) = failed
  read_table (some (header ∷ rows)) = or_panicked (read_rows (headers_from 0 header []) rows)

abbrev pub then_build {ℓ κ} : {A : Type ℓ} {B : Type κ} → (A → B) → Outcome A → Outcome B
then_build f (decoded a) = decoded (f a)
then_build f failed = failed
then_build f panicked = panicked

abbrev value_at : ℕ → Row → String
value_at i values = elim (get_elem? values i) [ none ↦ "" | some s ↦ s ]

abbrev route_of : Row → TripCsvRecord
route_of values = record {
  trip_id = "";
  route_id = value_at 0 values;
  service_id = "";
  trip_headsign = "";
  direction_id = "";
  route_short_name = value_at 1 values;
  line_id = "";
  live_route_id = "";
}

abbrev trip_of : Row → TripCsvRecord
trip_of values = record {
  trip_id = value_at 0 values;
  route_id = value_at 1 values;
  service_id = value_at 2 values;
  trip_headsign = value_at 3 values;
  direction_id = value_at 4 values;
  route_short_name = "";
  line_id = "";
  live_route_id = "";
}

-- A later record under the same key replaces an earlier one.
unfoldable pub keyed {ℓ} : {A : Type ℓ} → (A → String) → Dict String A → List A → Dict String A
keyed key result [] = result
keyed key result (a ∷ rest) = keyed key (insert (key a) a result) rest

unfoldable pub parse_routes_csv : Option (List Row) → Outcome (Dict String TripCsvRecord)
parse_routes_csv rows =
    then_build (keyed (λ (r : TripCsvRecord). r.route_id) [])
      (read_table (record_of route_of ("route_id" ∷ "route_short_name" ∷ [])) rows)

unfoldable pub parse_trips_csv : Option (List Row) → Outcome (Dict String TripCsvRecord)
parse_trips_csv rows = then_build (keyed (λ (r : TripCsvRecord). r.trip_id) []) (
    read_table
      (record_of trip_of
        ("trip_id" ∷ "route_id" ∷ "service_id" ∷ "trip_headsign" ∷ "direction_id" ∷ []))
      rows)

-- `strconv.ParseFloat`, 0 where it fails.
abbrev stop_of : {F : Type 0} → (String → F) → Row → StopMetadata F
stop_of parse_float values = record {
  id = value_at 2 values;
  name = value_at 3 values;
  lat = parse_float (value_at 0 values);
  lng = parse_float (value_at 1 values);
}

unfoldable pub parse_stops_csv :
    {F : Type 0} → (String → F) → Option (List Row) → Outcome (Dict String (StopMetadata F))
parse_stops_csv {F} parse_float rows = then_build (keyed (λ (s : StopMetadata F). s.id) []) (
    read_table
      (record_of (stop_of parse_float) ("stop_lat" ∷ "stop_lon" ∷ "stop_id" ∷ "stop_name" ∷ []))
      rows)

-- Each record at the end of those under its key.
unfoldable pub group {ℓ} :
    {A : Type ℓ} → (A → String) → Dict String (List A) → List A → Dict String (List A)
group key result [] = result
group key result (a ∷ rest) =
    group key (insert (key a) (or_nil (lookup (key a) result) ++ (a ∷ [])) result) rest

-- `strconv.Atoi`, 0 where it fails.
abbrev stop_time_of : (String → ℤ) → Row → StopTimeRecord
stop_time_of atoi values = record {
  trip_id = value_at 1 values;
  stop_id = value_at 2 values;
  arrival_time = value_at 3 values;
  departure_time = value_at 4 values;
  stop_sequence = atoi (value_at 0 values);
}

abbrev pub by_sequence : List StopTimeRecord → List StopTimeRecord
by_sequence = sort_stable (λ (a : StopTimeRecord) b. ltb_ℤ a.stop_sequence b.stop_sequence)

abbrev pub trip_key : StopTimeRecord → String
trip_key r = r.trip_id

abbrev pub stop_time_rows : (String → ℤ) → Option (List Row) → Outcome (List StopTimeRecord)
stop_time_rows atoi = read_table (
    record_of (stop_time_of atoi)
      ("stop_sequence" ∷ "trip_id" ∷ "stop_id" ∷ "arrival_time" ∷ "departure_time" ∷ []))

abbrev pub grouped_stop_times : List StopTimeRecord → Dict String (List StopTimeRecord)
grouped_stop_times records = map (λ e. (e.0, by_sequence e.1)) (group trip_key [] records)

-- `sort.Slice` leaves the order of equals open; here it is the one of a stable sort.
unfoldable pub parse_stop_times_csv :
    (String → ℤ) → Option (List Row) → Outcome (Dict String (List StopTimeRecord))
parse_stop_times_csv atoi rows = then_build grouped_stop_times (stop_time_rows atoi rows)

-- An empty file has no rows, and is no error for the two calendars.
abbrev empty_or {ℓ} : {A : Type ℓ} → Bool → A → Outcome A → Outcome A
empty_or true empty read = decoded empty
empty_or false empty read = read

abbrev present {ℓ} : {A : Type ℓ} → List (Option A) → List A
present [] = []
present (none ∷ rest) = present rest
present (some a ∷ rest) = a ∷ present rest

abbrev is_one : ℕ → Row → Bool
is_one i values = value_at i values == "1"

abbrev on_day : Row → ℕ → Bool
on_day values day =
    if day == 0 then is_one 7 values else if ltb 6 day then false else is_one day values

module _ (location : Location) where
  abbrev calendar_of : Time → Time → Row → CalendarRow
  calendar_of start finish values = record {
    service_id = value_at 0 values;
    start_date = start;
    end_date = finish;
    days = on_day values;
  }

  abbrev dated_calendar :
      Dict String ℕ → Row → Option Time → Option Time → Option (Option CalendarRow)
  dated_calendar headers row (some start) (some finish) =
      made (λ (values : Row). some (calendar_of start finish values))
        (cells headers row (
          "service_id" ∷ "monday" ∷ "tuesday" ∷ "wednesday" ∷ "thursday" ∷ "friday" ∷ "saturday"
          ∷ "sunday" ∷ []))
  dated_calendar headers row _ _ = some none

  -- A row with a date that cannot be read is left out, and the rest of it not looked at.
  abbrev calendar_row_of : Dict String ℕ → Row → Option (Option CalendarRow)
  calendar_row_of headers row = elim (cells headers row ("start_date" ∷ "end_date" ∷ [])) [
    | none ↦ none
    | some dates ↦
        dated_calendar headers row (map_gtfs_date location (value_at 0 dates))
          (map_gtfs_date location (value_at 1 dates))
  ]

  abbrev exception_on : Time → Row → CalendarDateException
  exception_on date values = record {
    date = date;
    service_id = value_at 0 values;
    exception_type = value_at 1 values;
  }

  abbrev dated_exception : Dict String ℕ → Row → Option Time → Option (Option CalendarDateException)
  dated_exception headers row none = some none
  dated_exception headers row (some date) =
      made (λ (values : Row). some (exception_on date values))
        (cells headers row ("service_id" ∷ "exception_type" ∷ []))

  abbrev exception_of : Dict String ℕ → Row → Option (Option CalendarDateException)
  exception_of headers row = elim (cell headers row "date") [
    | none ↦ none
    | some date ↦ dated_exception headers row (map_gtfs_date location date)
  ]

  unfoldable pub parse_calendar_csv : Bool → Option (List Row) → Outcome (Dict String CalendarRow)
  parse_calendar_csv is_empty rows = empty_or is_empty [] (
      then_build
        (λ (found : List (Option CalendarRow)).
          keyed (λ (r : CalendarRow). r.service_id) [] (present found))
        (read_table calendar_row_of rows))

  unfoldable pub parse_calendar_dates_csv :
      Bool → Option (List Row) → Outcome (Dict String (List CalendarDateException))
  parse_calendar_dates_csv is_empty rows = empty_or is_empty [] (
      then_build
        (λ (found : List (Option CalendarDateException)).
          group (λ (e : CalendarDateException). e.service_id) [] (present found))
        (read_table exception_of rows))
