-- ===== src/Mhd/Timetable/Refresh.antt =====
-- backend/mhd-preprocessor/src/gtfs_store.go: `refresh`, from the files of a download on, and what
-- `definitionsFor` finds after it.
use Prim.Native.String.{compare}
use text.Mathlib.Text.{is_lt}
use rio_t_preprocessors.Base.{
  Bool, true, false, ◌&&◌, String, string_eq, ◌==◌, Option, none, some, List, [], ◌∷◌, ◌++◌, map,
  any_b, elem, ◌≡◌, refl, ◌∙◌, arith, Option-cases, inl, inr,
}
use rio_t_preprocessors.Base.Maps.{Dict, lookup, lookup-insert}
use rio_t_preprocessors.Base.Sorting.{sort_stable, any_b-sort_stable}
use rio_t_preprocessors.Base.Time.{Time}
use rio_t_preprocessors.Mhd.Model.{TripDefinition, TripOccurrence}
use rio_t_preprocessors.Mhd.Store.{GtfsStore, definitions_for, line_route_index_key}
use rio_t_preprocessors.Mhd.Calendar.{Location, week_bounds, merge_service_days}
use rio_t_preprocessors.Mhd.Timetable.{
  Build, Tables, Library, or_nil, add_definition, add_trips, by_start, sorted_definitions,
  build_definitions,
}
use rio_t_preprocessors.Mhd.Timetable.Index.{
  IsIndexed, belongs, keeps-add_trips, build_definitions-IsIndexed,
}

module _ {F : Type 0} where
  -- The definitions that the pointers of an entry of the index point to.
  unfoldable pub resolve : Dict String (TripDefinition F) → List String → List (TripDefinition F)
  resolve definitions [] = []
  resolve definitions (uid ∷ rest) = elim (lookup uid definitions) [
    | none ↦ resolve definitions rest
    | some d ↦ d ∷ resolve definitions rest
  ]

  abbrev pub by_departure : List (TripDefinition F) → List (TripDefinition F)
  by_departure =
      sort_stable (λ (a : TripDefinition F) b. is_lt (compare a.departure_time b.departure_time))

  unfoldable pub load : String → Build F → GtfsStore F → GtfsStore F
  load week_key build store = record store {
    loaded_week_key = week_key;
    definitions_by_uid = build.definitions;
    line_route_index = map (λ e. (e.0, by_departure (resolve build.definitions e.1))) build.index;
  }

  -- `refresh`: a download or a file that fails leaves the store as it is, and is an error.
  unfoldable pub refresh :
      Library F
      → Location
      → (Time → String)
      → Time
      → Option (Tables F)
      → GtfsStore F
      → GtfsStore F × Bool
  refresh library location iso_week_key now none store = (store, false)
  refresh library location iso_week_key now (some tables) store =
      let (week_begin, week_end) = week_bounds location now in
      (
        load (iso_week_key week_begin)
            (build_definitions library location tables week_begin week_end) store,
        true,
      )

  lookup-resolved :
      (definitions : Dict String (TripDefinition F)) (index : Dict String (List String))
      (key : String)
      → or_nil (lookup key (map (λ e. (e.0, by_departure (resolve definitions e.1))) index))
        ≡ by_departure (resolve definitions (or_nil (lookup key index)))
  unfolding lookup sort_stable resolve
  lookup-resolved definitions [] key = refl
  lookup-resolved definitions ((k, uids) ∷ rest) key =
      ground (arith, lookup-resolved definitions rest key)

  abbrev pub own_uid : String → Option (TripDefinition F) → String
  own_uid uid none = uid
  own_uid uid (some d) = d.uid

  abbrev is_some : Option (TripDefinition F) → Bool
  is_some none = false
  is_some (some d) = true

  -- Each definition is kept under its own UID.
  abbrev pub IsOwn : Dict String (TripDefinition F) → Type 0
  IsOwn definitions = (uid : String) → own_uid uid (lookup uid definitions) ≡ uid

  resolve_lem :
      (definitions : Dict String (TripDefinition F)) (uids : List String) (uid : String)
      → IsOwn definitions
      → any_b (λ (d : TripDefinition F). d.uid == uid) (resolve definitions uids)
        ≡ (elem uid uids && is_some (lookup uid definitions))
  unfolding resolve
  resolve_lem definitions [] uid own = refl
  resolve_lem definitions (u ∷ rest) uid own =
      ground (arith, resolve_lem definitions rest uid own, own u, own uid, string_eq.beq_iff u uid)

  abbrev IsOwnBuild : Build F → Type 0
  IsOwnBuild build = IsOwn build.definitions

  add_definition-IsOwn :
      (build : Build F) (d : TripDefinition F) (occurrences : List TripOccurrence)
      → IsOwnBuild build
      → IsOwnBuild (add_definition build d occurrences)
  unfolding add_definition
  add_definition-IsOwn build d occurrences own uid =
      elim (Option-cases (lookup d.uid build.definitions)) [
        | inl fresh ↦ ground (
          arith,
          fresh,
          own uid,
          string_eq.beq_iff d.uid uid,
          lookup-insert d.uid uid (record d { occurrences = d.occurrences ++ occurrences })
              build.definitions,
        )
        | inr (old, given) ↦ ground (
          arith,
          given,
          own uid,
          own d.uid,
          string_eq.beq_iff d.uid uid,
          lookup-insert d.uid uid
              (record old {
                service_days = merge_service_days old.service_days d.service_days;
                occurrences = old.occurrences ++ occurrences;
              })
              build.definitions,
        )
      ]

  module _ (library : Library F) (location : Location) (tables : Tables F)
      (week_begin week_end : Time) where
    sorted-own_uid :
        (definitions : Dict String (TripDefinition F)) (uid : String)
        → own_uid uid (
            lookup uid (
              map
                (λ e. (e.0, by_start library location tables week_begin week_end e.1))
                definitions))
          ≡ own_uid uid (lookup uid definitions)
    unfolding lookup
    sorted-own_uid [] uid = refl
    sorted-own_uid ((u, d) ∷ rest) uid = ground (arith, sorted-own_uid rest uid)

    build_definitions-IsOwn :
        IsOwnBuild (build_definitions library location tables week_begin week_end)
    unfolding build_definitions sorted_definitions lookup
    build_definitions-IsOwn uid =
        let built =
          add_trips library location tables week_begin week_end
            (record { definitions = []; index = [] }) tables.trips in
        sorted-own_uid built.definitions uid
        ∙ keeps-add_trips IsOwnBuild add_definition-IsOwn library location tables week_begin
            week_end (record { definitions = []; index = [] }) tables.trips (λ u. refl) uid

  definitions_for-or_nil :
      (store : GtfsStore F) (line_id live_route_id : String)
      → definitions_for store line_id live_route_id
        ≡ or_nil (lookup (line_route_index_key line_id live_route_id) store.line_route_index)
  unfolding definitions_for
  definitions_for-or_nil store line_id live_route_id = ground arith

  found_lem :
      (listed : Bool) (key : String) (found : Option (TripDefinition F))
      → listed ≡ belongs key found
      → (listed && is_some found) ≡ belongs key found
  found_lem listed key none h = ground (arith, h)
  found_lem listed key (some d) h = ground (arith, h)

  load_lem :
      (week_key : String) (build : Build F) (store : GtfsStore F)
      (line_id live_route_id uid : String)
      → IsIndexed build
      → IsOwnBuild build
      → any_b
          (λ (d : TripDefinition F). d.uid == uid)
          (definitions_for (load week_key build store) line_id live_route_id)
        ≡ belongs (line_route_index_key line_id live_route_id) (lookup uid build.definitions)
  unfolding load
  load_lem week_key build store line_id live_route_id uid indexed own =
      let key = line_route_index_key line_id live_route_id in
      let uids = or_nil (lookup key build.index) in
      let is_uid = λ (d : TripDefinition F). d.uid == uid in
      rw
        (
          definitions_for-or_nil (load week_key build store) line_id live_route_id,
          lookup-resolved build.definitions build.index key,
        )
        (any_b-sort_stable
            (λ (a : TripDefinition F) b. is_lt (compare a.departure_time b.departure_time)) is_uid
            (resolve build.definitions uids)
          ∙ resolve_lem build.definitions uids uid own
          ∙ found_lem (elem uid uids) key (lookup uid build.definitions) (indexed key uid))

  -- After a refresh that succeeds, the definitions that `definitionsFor` gives for a line and a route have
  -- a UID among them exactly if the loaded definition of that UID has a line, with the key of that line
  -- and that route.
  pub definitions_for-refresh :
      (library : Library F) (location : Location) (iso_week_key : Time → String) (now : Time)
      (tables : Tables F) (store : GtfsStore F) (line_id live_route_id uid : String)
      → let loaded = (refresh library location iso_week_key now (some tables) store).0 in
        any_b
          (λ (d : TripDefinition F). d.uid == uid)
          (definitions_for loaded line_id live_route_id)
        ≡ belongs
            (line_route_index_key line_id live_route_id)
            (lookup uid loaded.definitions_by_uid)
  unfolding refresh load
  definitions_for-refresh library location iso_week_key now tables store line_id live_route_id uid =
      let week = week_bounds location now in
      load_lem (iso_week_key week.0) (build_definitions library location tables week.0 week.1) store
        line_id live_route_id uid
        (build_definitions-IsIndexed library location tables week.0 week.1)
        (build_definitions-IsOwn library location tables week.0 week.1)
