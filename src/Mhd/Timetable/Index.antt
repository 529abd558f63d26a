-- ===== src/Mhd/Timetable/Index.antt =====
-- The index by line and route that backend/mhd-preprocessor/src/gtfs_store.go builds.
use rio_t_preprocessors.Base.{
  Bool, false, ◌&&◌, String, string_eq, ◌==◌, Option, none, some, List, [], ◌∷◌, ◌++◌, elem,
  any_b-append, ◌≡◌, refl, sym, ◌∙◌, map, arith, Option-cases, inl, inr,
}
use rio_t_preprocessors.Base.Maps.{Dict, lookup, lookup-insert}
use rio_t_preprocessors.Base.Time.{Time}
use rio_t_preprocessors.Mhd.Model.{StopTimeRecord, TripCsvRecord, TripDefinition, TripOccurrence}
use rio_t_preprocessors.Mhd.Calendar.{Location, merge_service_days}
use rio_t_preprocessors.Mhd.Timetable.{
  Build, Tables, Library, or_nil, has_line, key_of, add_definition, add_trip, add_trips,
  sorted_definitions, build_definitions, add_dated, add_stops, by_start,
}

-- A predicate that adding a definition keeps holds after the loop over the trips.
module _ {F : Type 0} (P : Build F → Type 0)
    (keeps : (build : Build F) (d : TripDefinition F) (occurrences : List TripOccurrence)
      → P build
      → P (add_definition build d occurrences))
    (library : Library F) (location : Location) (tables : Tables F)
    (week_begin week_end : Time) where
  keeps-add_dated :
      (build : Build F) (trip_id : String) (trip : TripCsvRecord) (first : StopTimeRecord)
      (rest : List StopTimeRecord) (dates : Option (List Time))
      → P build
      → P (
          add_dated library location tables week_begin week_end build trip_id trip first rest dates)
  keeps-add_dated build trip_id trip first rest none h = h
  keeps-add_dated build trip_id trip first rest (some []) h = h
  keeps-add_dated build trip_id trip first rest (some (date ∷ dates)) h = keeps build _ _ h

  keeps-add_stops :
      (build : Build F) (trip_id : String) (trip : TripCsvRecord) (stops : List StopTimeRecord)
      → P build
      → P (add_stops library location tables week_begin week_end build trip_id trip stops)
  keeps-add_stops build trip_id trip [] h = h
  keeps-add_stops build trip_id trip (first ∷ []) h = h
  keeps-add_stops build trip_id trip (first ∷ second ∷ rest) h =
      keeps-add_dated build trip_id trip first (second ∷ rest) _ h

  keeps-add_trip :
      (build : Build F) (trip_id : String) (trip : TripCsvRecord)
      → P build
      → P (add_trip library location tables week_begin week_end build trip_id trip)
  unfolding add_trip
  keeps-add_trip build trip_id trip h =
      keeps-add_stops build trip_id trip (or_nil (lookup trip_id tables.stop_times)) h

  pub keeps-add_trips :
      (build : Build F) (trips : Dict String TripCsvRecord)
      → P build
      → P (add_trips library location tables week_begin week_end build trips)
  unfolding add_trips
  keeps-add_trips build [] h = h
  keeps-add_trips build ((trip_id, trip) ∷ rest) h =
      keeps-add_trips (add_trip library location tables week_begin week_end build trip_id trip) rest
        (keeps-add_trip build trip_id trip h)

module _ {F : Type 0} where
  -- Whether a definition has a line and belongs under a key.
  abbrev pub belongs : String → Option (TripDefinition F) → Bool
  belongs key none = false
  belongs key (some d) = has_line d && key_of d == key

  -- Under each key the index has exactly the UIDs of the definitions that belong there.
  abbrev pub IsIndexed : Build F → Type 0
  IsIndexed build =
      (key uid : String)
      → elem uid (or_nil (lookup key build.index)) ≡ belongs key (lookup uid build.definitions)

  add_definition-IsIndexed :
      (build : Build F) (d : TripDefinition F) (occurrences : List TripOccurrence)
      → IsIndexed build
      → IsIndexed (add_definition build d occurrences)
  unfolding add_definition
  add_definition-IsIndexed build d occurrences h key uid =
      elim (Option-cases (lookup d.uid build.definitions)) [
        | inl fresh ↦ ground (
          arith,
          fresh,
          h key uid,
          h (key_of d) uid,
          string_eq.beq_iff d.uid uid,
          string_eq.beq_iff (key_of d) key,
          lookup-insert d.uid uid (record d { occurrences = d.occurrences ++ occurrences })
              build.definitions,
          lookup-insert (key_of d) key (or_nil (lookup (key_of d) build.index) ++ (d.uid ∷ []))
              build.index,
          any_b-append (λ (u : String). u == uid) (or_nil (lookup (key_of d) build.index))
              (d.uid ∷ []),
        )
        | inr (old, given) ↦ ground (
          arith,
          given,
          h key uid,
          string_eq.beq_iff d.uid uid,
          lookup-insert d.uid uid
              (record old {
                service_days = merge_service_days old.service_days d.service_days;
                occurrences = old.occurrences ++ occurrences;
              })
              build.definitions,
        )
      ]

  module _ (library : Library F) (location : Location) (tables : Tables F)
      (week_begin week_end : Time) where
    sorted-belongs :
        (definitions : Dict String (TripDefinition F)) (key uid : String)
        → belongs key (
            lookup uid (
              map
                (λ e. (e.0, by_start library location tables week_begin week_end e.1))
                definitions))
          ≡ belongs key (lookup uid definitions)
    unfolding lookup
    sorted-belongs [] key uid = refl
    sorted-belongs ((u, d) ∷ rest) key uid = ground (arith, sorted-belongs rest key uid)

    -- The index that is built has under the key of a line and a route exactly the UIDs of the built
    -- definitions that have a line, with that key.
    pub build_definitions-IsIndexed :
        IsIndexed (build_definitions library location tables week_begin week_end)
    unfolding build_definitions sorted_definitions lookup
    build_definitions-IsIndexed key uid =
        let built =
          add_trips library location tables week_begin week_end
            (record { definitions = []; index = [] }) tables.trips in
        keeps-add_trips IsIndexed add_definition-IsIndexed library location tables week_begin
          week_end (record { definitions = []; index = [] }) tables.trips (λ k u. refl) key uid
        ∙ sym (sorted-belongs built.definitions key uid)
