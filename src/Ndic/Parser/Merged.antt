-- ===== src/Ndic/Parser/Merged.antt =====
-- The merging of entries in parseNDICXML of backend/ndic-preprocessor/src/parser.go against a
-- description of each source's snapshot by itself.
use rio_t_preprocessors.Base.{
  String, string_eq, ◌==◌, if◌then◌else◌, Option, none, some, List, [], ◌∷◌, ◌++◌, ◌≡◌, refl, arith,
  map, append-nil, ◌∙◌, ap, append_assoc, inl, inr, Bool-cases, Option-cases, subst, sym,
}
use rio_t_preprocessors.Base.Maps.{Dict, lookup, lookup-insert}
use rio_t_preprocessors.Base.Time.{Time, zero_time, is_zero}
use rio_t_preprocessors.Ndic.Model.{RawEntry, Snapshot}
use rio_t_preprocessors.Ndic.Parser.{
  Item, first_code, latest_time, replaced, level_of, new_snapshot, take_reading, merge_item,
  snapshot_for, add_item,
}
use rio_t_preprocessors.Ndic.Parser.Expected.{
  first_nonempty, latest_set, last_some, reading, level, speed, duration, items_of, expected,
  expected_if_any, source_snapshot,
}

-- The same by the steps of the loop, from the first to the last.
unfoldable pub first_known : List String → String
unfolding first_code
first_known [] = ""
first_known (code ∷ codes) = first_code code (first_known codes)

unfoldable pub newest : List Time → Time
unfolding latest_time
newest [] = zero_time
newest (time ∷ times) = latest_time time (newest times)

unfoldable pub last_known {ℓ} : {A : Type ℓ} → List (Option A) → Option A
unfolding replaced
last_known [] = none
last_known (value ∷ values) = replaced value (last_known values)

module _ {F : Type 0} where
  -- A snapshot with what items add to it.
  unfoldable pub described : List (Item F) → Snapshot F → Snapshot F
  unfolding first_known newest last_known
  described items s = record s {
    event_time = latest_time s.event_time (newest (map (λ i. i.entry.event_time) items));
    primary_location_code =
        first_code s.primary_location_code
          (first_known (map (λ i. i.location.primary_location_code) items));
    secondary_location_code =
        first_code s.secondary_location_code
          (first_known (map (λ i. i.location.secondary_location_code) items));
    traffic_level_any_vehicle = replaced s.traffic_level_any_vehicle (last_known (map level items));
    traffic_speed_any_vehicle = replaced s.traffic_speed_any_vehicle (last_known (map speed items));
    travel_time_any_vehicle = replaced s.travel_time_any_vehicle (last_known (map duration items));
    raw_entries = s.raw_entries ++ map (λ i. i.entry) items;
  }

  unfoldable pub described_if_any : String → List (Item F) → Option (Snapshot F)
  unfolding described
  described_if_any source_id [] = none
  described_if_any source_id (item ∷ items) =
      some (described (item ∷ items) (new_snapshot source_id))

  unfoldable pub add_all : List (Item F) → Dict String (Snapshot F) → Dict String (Snapshot F)
  add_all [] snapshots = snapshots
  add_all (item ∷ items) snapshots = add_all items (add_item item snapshots)

  unfoldable merge_all : List (Item F) → Snapshot F → Snapshot F
  merge_all [] s = s
  merge_all (item ∷ items) s = merge_all items (merge_item item s)

  unfoldable merged : String → List (Item F) → Option (Snapshot F) → Option (Snapshot F)
  unfolding merge_all
  merged source_id [] found = found
  merged source_id (item ∷ items) found =
      some (merge_all (item ∷ items) (snapshot_for source_id found))

first_code_assoc : (a b c : String) → first_code (first_code a b) c ≡ first_code a (first_code b c)
unfolding first_code
first_code_assoc a b c = ground arith

first_code_nil : (a : String) → first_code a "" ≡ a
unfolding first_code
first_code_nil a = ground (arith, string_eq.beq_iff a "")

latest_time_assoc :
    (a b c : Time) → latest_time (latest_time a b) c ≡ latest_time a (latest_time b c)
unfolding latest_time is_zero
latest_time_assoc a b c = ground arith

latest_time_zero : (a : Time) → latest_time a zero_time ≡ a
unfolding latest_time is_zero
latest_time_zero a = ground arith

replaced_assoc {ℓ} :
    {A : Type ℓ} (a b c : Option A) → replaced (replaced a b) c ≡ replaced a (replaced b c)
unfolding replaced
replaced_assoc a b none = refl
replaced_assoc a b (some c) = refl

replaced-none {ℓ} : {A : Type ℓ} (a : Option A) → replaced a none ≡ a
unfolding replaced
replaced-none a = refl

first_known-first_nonempty : (codes : List String) → first_known codes ≡ first_nonempty codes
unfolding first_known first_nonempty first_code
first_known-first_nonempty [] = refl
first_known-first_nonempty (code ∷ codes) = ground (arith, first_known-first_nonempty codes)

newest-latest_set : (times : List Time) → newest times ≡ latest_set times
unfolding newest latest_set latest_time is_zero
newest-latest_set [] = refl
newest-latest_set (time ∷ times) = ground (arith, newest-latest_set times)

last_known-last_some {ℓ} :
    {A : Type ℓ} (values : List (Option A)) → last_known values ≡ last_some values
unfolding last_known last_some
last_known-last_some [] = refl
last_known-last_some (value ∷ values) = elim (Option-cases (last_some values)) [
  | inl h ↦ rw (last_known-last_some values, h) (replaced-none value)
  | inr (last, h) ↦ rw (last_known-last_some values, h, replaced) refl
]

first_code_empty : (code : String) → first_code "" code ≡ code
unfolding first_code
first_code_empty code = refl

latest_time_unset : (time : Time) → latest_time zero_time time ≡ time
unfolding latest_time is_zero
latest_time_unset time = ground arith

no_replaced {ℓ} : {A : Type ℓ} (value : Option A) → replaced none value ≡ value
unfolding replaced
no_replaced none = refl
no_replaced (some value) = refl

module _ {F : Type 0} where
  abbrev readings : String → RawEntry F → Snapshot F → Snapshot F
  readings kind entry s = record s {
    traffic_level_any_vehicle =
        replaced s.traffic_level_any_vehicle
          (if kind == "TrafficStatus" then level_of entry.traffic_level_value else none);
    traffic_speed_any_vehicle =
        replaced s.traffic_speed_any_vehicle (if kind == "TrafficSpeed" then entry.speed else none);
    travel_time_any_vehicle =
        replaced s.travel_time_any_vehicle
          (if kind == "TravelTimeData" then entry.duration else none);
  }

  take_reading-readings :
      (kind : String) (entry : RawEntry F) (s : Snapshot F)
      → take_reading kind entry s ≡ readings kind entry s
  unfolding take_reading replaced
  take_reading-readings kind entry s =
      let Goal = (λ (k : String). take_reading k entry s ≡ readings k entry s) in
      elim (Bool-cases (kind == "TrafficStatus")) [
        | inl y ↦ subst Goal (sym ((string_eq.beq_iff kind "TrafficStatus").0 y)) refl
        | inr n ↦ elim (Bool-cases (kind == "TrafficSpeed")) [
          | inl y ↦ subst Goal (sym ((string_eq.beq_iff kind "TrafficSpeed").0 y)) refl
          | inr m ↦ elim (Bool-cases (kind == "TravelTimeData")) [
            | inl y ↦ subst Goal (sym ((string_eq.beq_iff kind "TravelTimeData").0 y)) refl
            | inr k ↦ rw (take_reading, n, m, k) refl
          ]
        ]
      ]

  pub merge_item-described :
      (item : Item F) (s : Snapshot F) → merge_item item s ≡ described (item ∷ []) s
  unfolding merge_item described reading first_known newest last_known
  merge_item-described item s =
      let c = item.location in
      rw
        (
          take_reading-readings item.data_type item.entry,
          first_code_nil c.primary_location_code,
          first_code_nil c.secondary_location_code,
          latest_time_zero item.entry.event_time,
          replaced-none (level item),
          replaced-none (speed item),
          replaced-none (duration item),
        )
        refl

  described_cons :
      (item : Item F) (items : List (Item F)) (s : Snapshot F)
      → described items (described (item ∷ []) s) ≡ described (item ∷ items) s
  unfolding described first_known newest last_known
  described_cons item items s = simp (
    first_code_nil, latest_time_zero, first_code_assoc, latest_time_assoc, replaced-none,
    replaced_assoc, append_assoc,
  )

  described_nil : (s : Snapshot F) → described [] s ≡ s
  unfolding described first_known newest last_known
  described_nil s = simp (first_code_nil, latest_time_zero, replaced-none, append-nil)

  merge_all-described :
      (items : List (Item F)) (s : Snapshot F) → merge_all items s ≡ described items s
  unfolding merge_all
  merge_all-described [] s = rw (described_nil s) refl
  merge_all-described (item ∷ items) s =
      merge_all-described items (merge_item item s)
      ∙ (rw (merge_item-described item s) (described_cons item items s))

  merged-some :
      (source_id : String) (items : List (Item F)) (s : Snapshot F)
      → merged source_id items (some s) ≡ some (merge_all items s)
  unfolding merged snapshot_for merge_all
  merged-some source_id [] s = refl
  merged-some source_id (item ∷ items) s = refl

  merged-described :
      (source_id : String) (items : List (Item F))
      → merged source_id items none ≡ described_if_any source_id items
  unfolding merged described_if_any snapshot_for
  merged-described source_id [] = refl
  merged-described source_id (item ∷ items) =
      ap some (merge_all-described (item ∷ items) (new_snapshot source_id))

  lookup-add_item :
      (source_id : String) (item : Item F) (m : Dict String (Snapshot F))
      → lookup source_id (add_item item m) ≡ (
          if item.source_id == source_id
          then some (merge_item item (snapshot_for source_id (lookup source_id m)))
          else lookup source_id m)
  unfolding add_item
  lookup-add_item source_id item m =
      let new = (λ (k : String). merge_item item (snapshot_for k (lookup k m))) in
      lookup-insert item.source_id source_id (new item.source_id) m
      ∙ elim (Bool-cases (item.source_id == source_id)) [
        | inl y ↦ rw y (ap (λ k. some (new k)) ((string_eq.beq_iff item.source_id source_id).0 y))
        | inr n ↦ rw n refl
      ]

  lookup-add_all :
      (source_id : String) (items : List (Item F)) (m : Dict String (Snapshot F))
      → lookup source_id (add_all items m)
        ≡ merged source_id (items_of source_id items) (lookup source_id m)
  unfolding add_all merged
  lookup-add_all source_id [] m = refl
  lookup-add_all source_id (item ∷ items) m = elim (Bool-cases (item.source_id == source_id)) [
    | inl y ↦
        lookup-add_all source_id items (add_item item m)
        ∙ rw (lookup-add_item source_id item m, y)
            (merged-some source_id (items_of source_id items)
              (merge_item item (snapshot_for source_id (lookup source_id m))))
    | inr n ↦
        lookup-add_all source_id items (add_item item m)
        ∙ rw (lookup-add_item source_id item m, n) refl
  ]

  described-expected :
      (source_id : String) (items : List (Item F))
      → described items (new_snapshot source_id) ≡ expected source_id items
  unfolding described expected
  described-expected source_id items = simp (
    first_code_empty, first_known-first_nonempty, latest_time_unset, newest-latest_set, no_replaced,
    last_known-last_some,
  )

  described_if_any-expected_if_any :
      (source_id : String) (items : List (Item F))
      → described_if_any source_id items ≡ expected_if_any source_id items
  unfolding described_if_any expected_if_any
  described_if_any-expected_if_any source_id [] = refl
  described_if_any-expected_if_any source_id (item ∷ items) =
      ap some (described-expected source_id (item ∷ items))

  -- Merging items one after the other gives each source the snapshot that its own items describe.
  pub add_all-source_snapshot :
      (source_id : String) (items : List (Item F))
      → lookup source_id (add_all items []) ≡ source_snapshot source_id items
  unfolding source_snapshot lookup
  add_all-source_snapshot source_id items =
      lookup-add_all source_id items []
      ∙ merged-described source_id (items_of source_id items)
      ∙ described_if_any-expected_if_any source_id (items_of source_id items)
