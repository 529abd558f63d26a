-- ===== src/Ndic/Parser/Expected.antt =====
-- What a publication should hold for each source: the snapshot that the source's own items describe.
use rio_t_preprocessors.Base.{
  String, string_eq, ◌==◌, if◌then◌else◌, Option, none, some, List, [], ◌∷◌, map, filter_b,
}
use rio_t_preprocessors.Base.Int.{ℤ, pos, ltb_ℤ}
use rio_t_preprocessors.Base.Time.{Time, is_zero}
use rio_t_preprocessors.Ndic.Model.{Snapshot}
use rio_t_preprocessors.Ndic.Elaborated.{traffic_level_value}
use rio_t_preprocessors.Ndic.Parser.{Item}

-- The first code that is not empty, the latest of the times that are set, and the last value that is
-- there.
unfoldable pub first_nonempty : List String → String
first_nonempty [] = ""
first_nonempty (code ∷ codes) = let rest = first_nonempty codes in if code == "" then rest else code

unfoldable pub latest_set : List Time → Time
latest_set [] = pos 0
latest_set (time ∷ times) =
    let rest = latest_set times in
    if is_zero time
    then rest
    else if is_zero rest
    then time
    else if ltb_ℤ time rest
    then rest
    else time

unfoldable pub last_some {ℓ} : {A : Type ℓ} → List (Option A) → Option A
last_some [] = none
last_some (value ∷ values) = elim (last_some values) [ none ↦ value | some last ↦ some last ]

module _ {F : Type 0} where
  -- The value that an item gives for one kind of data.
  unfoldable pub reading {ℓ} : {A : Type ℓ} → String → Option A → Item F → Option A
  reading kind value item = if item.data_type == kind then value else none

  abbrev pub level : Item F → Option ℤ
  level item =
      let text = item.entry.traffic_level_value in
      reading "TrafficStatus" (if text == "" then none else some (traffic_level_value text)) item

  abbrev pub speed : Item F → Option F
  speed item = reading "TrafficSpeed" item.entry.speed item

  abbrev pub duration : Item F → Option F
  duration item = reading "TravelTimeData" item.entry.duration item

  abbrev pub items_of : String → List (Item F) → List (Item F)
  items_of source_id = filter_b (λ item. item.source_id == source_id)

  -- The snapshot of a source by itself, from its items in order.
  unfoldable pub expected : String → List (Item F) → Snapshot F
  expected source_id items = record {
    source_identification = source_id;
    event_time = latest_set (map (λ i. i.entry.event_time) items);
    primary_location_code = first_nonempty (map (λ i. i.location.primary_location_code) items);
    secondary_location_code = first_nonempty (map (λ i. i.location.secondary_location_code) items);
    tmc_metadata = none;
    traffic_level_any_vehicle = last_some (map level items);
    traffic_speed_any_vehicle = last_some (map speed items);
    travel_time_any_vehicle = last_some (map duration items);
    raw_entries = map (λ i. i.entry) items;
  }

  unfoldable pub expected_if_any : String → List (Item F) → Option (Snapshot F)
  expected_if_any source_id [] = none
  expected_if_any source_id (item ∷ items) = some (expected source_id (item ∷ items))

  -- What the publication should hold for a source.
  unfoldable pub source_snapshot : String → List (Item F) → Option (Snapshot F)
  source_snapshot source_id items = expected_if_any source_id (items_of source_id items)
