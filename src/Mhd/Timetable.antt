-- ===== src/Mhd/Timetable.antt =====
-- backend/mhd-preprocessor/src/gtfs_store.go: `buildDefinitions`, on the parsed files of the timetable. A
-- pointer to a definition is the UID under which it is kept, of which there is one for each.
pub mod Index
pub mod Refresh
mod Tests
use Prim.Native.String.{compare}
use text.Mathlib.Text.{is_lt}
use rio_t_preprocessors.Base.{
  ℕ, Bool, true, false, ◌&&◌, not, String, string_eq, ◌==◌, if◌then◌else◌, Option, none, some, List,
  [], ◌∷◌, ◌++◌, map, any_b,
}
use rio_t_preprocessors.Base.Int.{ℤ, pos}
use rio_t_preprocessors.Base.Maps.{Dict, lookup, insert}
use rio_t_preprocessors.Base.Sorting.{sort_stable}
use rio_t_preprocessors.Base.Text.{◌⧺◌, trim_space}
use rio_t_preprocessors.Base.Time.{Time, before}
use rio_t_preprocessors.Mhd.Model.{
  StopMetadata, StopTimeRecord, TripCsvRecord, TripDefinition, TripOccurrence, mhd_sd_type_uid,
}
use rio_t_preprocessors.Mhd.Store.{GtfsStore, line_route_index_key}
use rio_t_preprocessors.Mhd.Calendar.{
  Location, CalendarRow, CalendarDateException, active_service_dates, distinct_weekdays,
  weekdays_to_codes, merge_service_days, parse_gtfs_clock, week_bounds,
}

-- The parsed files: routes.txt, stops.txt, stop_times.txt, trips.txt, calendar.txt, calendar_dates.txt
-- and api.txt.
pub record Tables (F : Type 0) : Type 0 where
  pub routes : Dict String TripCsvRecord
  pub stops : Dict String (StopMetadata F)
  pub stop_times : Dict String (List StopTimeRecord)
  pub trips : Dict String TripCsvRecord
  pub calendar : Dict String CalendarRow
  pub calendar_dates : Dict String (List CalendarDateException)
  pub api_map : Dict String (String × String)

-- `strconv.Atoi`, SHA-256 in hexadecimal, and the number 0.
pub record Library (F : Type 0) : Type 0 where
  pub atoi : String → Option ℤ
  pub sha256_hex : String → String
  pub zero_float : F

unfoldable pub friendly_value : String → String
friendly_value value =
    let trimmed = trim_space value in if trimmed == "" then "Unknown" else trimmed

unfoldable pub build_trip_label : String → String → String → String → String
build_trip_label route_short_name departure_time from_stop to_stop =
    friendly_value route_short_name
    ⧺ " "
    ⧺ friendly_value departure_time
    ⧺ " | "
    ⧺ friendly_value from_stop
    ⧺ " -> "
    ⧺ friendly_value to_stop

-- `strings.Join(ids, "_")`
unfoldable pub join_ids : List String → String
join_ids [] = ""
join_ids (s ∷ []) = s
join_ids (s ∷ t ∷ rest) = s ⧺ "_" ⧺ join_ids (t ∷ rest)

-- The definitions and the index as they are built, the index as the UIDs of its definitions.
pub record Build (F : Type 0) : Type 0 where
  pub definitions : Dict String (TripDefinition F)
  pub index : Dict String (List String)

-- A key that is missing reads as the zero value.
abbrev pub or_nil {ℓ} : {A : Type ℓ} → Option (List A) → List A
or_nil none = []
or_nil (some xs) = xs

abbrev pub last_stop : StopTimeRecord → List StopTimeRecord → StopTimeRecord
last_stop s [] = s
last_stop s (t ∷ rest) = last_stop t rest

module _ {F : Type 0} (library : Library F) where
  unfoldable pub stable_trip_hash : String → String → List String → String → String
  stable_trip_hash route_id departure_time stop_ids direction_id =
      library.sha256_hex
        (route_id ⧺ "|" ⧺ departure_time ⧺ "|" ⧺ join_ids stop_ids ⧺ "|" ⧺ direction_id)

  unfoldable pub build_trip_instance_uid : TripCsvRecord → String → List String → String
  build_trip_instance_uid trip departure_time stop_ids =
      mhd_sd_type_uid
      ⧺ "_"
      ⧺ stable_trip_hash trip.route_id departure_time stop_ids trip.direction_id

  module _ (location : Location) (tables : Tables F) where
    -- The details of a stop, by its ID alone where stops.txt does not have it.
    unfoldable pub stop_details : StopTimeRecord → StopMetadata F
    stop_details item = elim (lookup item.stop_id tables.stops) [
      | none ↦ record {
        id = item.stop_id;
        name = item.stop_id;
        lat = library.zero_float;
        lng = library.zero_float;
      }
      | some stop ↦ stop
    ]

    unfoldable pub stop_name : String → String
    stop_name id = elim (lookup id tables.stops) [ none ↦ "" | some stop ↦ stop.name ]

    unfoldable pub route_name : String → String
    route_name id = elim (lookup id tables.routes) [
      | none ↦ ""
      | some route ↦ route.route_short_name
    ]

    unfoldable pub line_of : String → String × String
    line_of trip_id = elim (lookup trip_id tables.api_map) [ none ↦ ("", "") | some pair ↦ pair ]

    abbrev clocks : TripCsvRecord → Time → Option Time → Option Time → List TripOccurrence
    clocks trip service_date (some start) (some finish) =
        record {
          trip_id = trip.trip_id;
          service_id = trip.service_id;
          service_date = service_date;
          scheduled_start = start;
          scheduled_end = finish;
        }
        ∷ []
    clocks trip service_date _ _ = []

    -- The occurrences of a trip, one for each date whose times can be read.
    unfoldable pub occurrences_of :
        TripCsvRecord → String → String → List Time → List TripOccurrence
    occurrences_of trip departure arrival [] = []
    occurrences_of trip departure arrival (date ∷ rest) =
        clocks trip date (parse_gtfs_clock location library.atoi date departure)
          (parse_gtfs_clock location library.atoi date arrival)
        ++ occurrences_of trip departure arrival rest

    -- The definition of a trip with these stops, without its occurrences.
    unfoldable pub new_definition :
        String
        → TripCsvRecord
        → StopTimeRecord
        → List StopTimeRecord
        → List String
        → TripDefinition F
    new_definition trip_id trip first rest service_days =
        let last = last_stop first rest in
        let stop_ids = map (λ (s : StopTimeRecord). s.stop_id) (first ∷ rest) in
        record {
          uid = build_trip_instance_uid trip first.departure_time stop_ids;
          label =
              build_trip_label (route_name trip.route_id) first.departure_time
                (stop_name first.stop_id) (stop_name last.stop_id);
          trip_id = trip.trip_id;
          route_id = trip.route_id;
          route_short_name = route_name trip.route_id;
          direction_id = trip.direction_id;
          trip_headsign = trip.trip_headsign;
          departure_time = first.departure_time;
          from_stop_id = first.stop_id;
          from_stop_name = stop_name first.stop_id;
          to_stop_id = last.stop_id;
          to_stop_name = stop_name last.stop_id;
          service_id = trip.service_id;
          service_days = service_days;
          stop_ids = stop_ids;
          stop_metadata = map stop_details (first ∷ rest);
          line_id = (line_of trip_id).0;
          live_route_id = (line_of trip_id).1;
          occurrences = [];
        }

-- A definition with a line is found by the index.
abbrev pub has_line : {F : Type 0} → TripDefinition F → Bool
has_line d = not (d.line_id == "") && not (d.live_route_id == "")

abbrev pub key_of : {F : Type 0} → TripDefinition F → String
key_of d = line_route_index_key d.line_id d.live_route_id

module _ {F : Type 0} where
  -- `definitions[uid]` is made or, where it exists, merged with; then it gets its occurrences.
  unfoldable pub add_definition : Build F → TripDefinition F → List TripOccurrence → Build F
  add_definition build definition occurrences = elim (lookup definition.uid build.definitions) [
    | none ↦ record {
      definitions =
          insert definition.uid
            (record definition { occurrences = definition.occurrences ++ occurrences })
            build.definitions;
      index =
          if has_line definition
          then insert (key_of definition)
              (or_nil (lookup (key_of definition) build.index) ++ (definition.uid ∷ [])) build.index
          else build.index;
    }
    | some old ↦ record build {
      definitions =
          insert definition.uid
            (record old {
              service_days = merge_service_days old.service_days definition.service_days;
              occurrences = old.occurrences ++ occurrences;
            })
            build.definitions;
    }
  ]

  module _ (library : Library F) (location : Location) (tables : Tables F)
      (week_begin week_end : Time) where
    -- One round of the loop over the trips.
    abbrev pub add_dated :
        Build F
        → String
        → TripCsvRecord
        → StopTimeRecord
        → List StopTimeRecord
        → Option (List Time)
        → Build F
    add_dated build trip_id trip first rest (some (date ∷ dates)) =
        add_definition build
          (new_definition library location tables trip_id trip first rest
            (weekdays_to_codes (distinct_weekdays location (date ∷ dates))))
          (occurrences_of library location tables trip first.departure_time
            (last_stop first rest).arrival_time (date ∷ dates))
    add_dated build trip_id trip first rest _ = build

    abbrev pub add_stops : Build F → String → TripCsvRecord → List StopTimeRecord → Build F
    add_stops build trip_id trip (first ∷ second ∷ rest) =
        add_dated build trip_id trip first (second ∷ rest) (
          active_service_dates location trip.service_id tables.calendar tables.calendar_dates
            week_begin week_end)
    add_stops build trip_id trip _ = build

    unfoldable pub add_trip : Build F → String → TripCsvRecord → Build F
    add_trip build trip_id trip =
        add_stops build trip_id trip (or_nil (lookup trip_id tables.stop_times))

    unfoldable pub add_trips : Build F → Dict String TripCsvRecord → Build F
    add_trips build [] = build
    add_trips build ((trip_id, trip) ∷ rest) = add_trips (add_trip build trip_id trip) rest

    abbrev pub by_start : TripDefinition F → TripDefinition F
    by_start d = record d {
      occurrences =
          sort_stable (λ (a : TripOccurrence) b. before a.scheduled_start b.scheduled_start)
            d.occurrences;
    }

    -- `sort.Slice` leaves the order of equals open; here it is the one of a stable sort.
    unfoldable pub sorted_definitions : Build F → Dict String (TripDefinition F)
    sorted_definitions build = map (λ e. (e.0, by_start e.1)) build.definitions

    unfoldable pub build_definitions : Build F
    build_definitions =
        let built = add_trips (record { definitions = []; index = [] }) tables.trips in
        record { definitions = sorted_definitions built; index = built.index }
