-- ===== src/Ndic/Tmc.antt =====
-- backend/ndic-preprocessor/src/tmc.go: the table of TMC points, from its decoded rows on, and what it adds
-- to a publication. `strconv.ParseFloat` is a parameter.
pub mod Enriched
mod Tests
use Prim.Native.Char.{code}
use rio_t_preprocessors.Base.{
  Bool, true, false, ◌&&◌, not, String, string_eq, nat_eq, ◌==◌, if◌then◌else◌, Option, none, some,
  List, [], ◌∷◌, ℕ, leb,
}
use rio_t_preprocessors.Base.Maps.{Dict, lookup, insert}
use rio_t_preprocessors.Base.Text.{trim_space, ◌⧺◌}
use rio_t_preprocessors.Ndic.Labels.{compose_point_name}
use rio_t_preprocessors.Ndic.Model.{TmcMetadata, Snapshot, ParsedFetch}

-- A key that is missing reads as the empty text.
abbrev pub or_empty : Option String → String
or_empty none = ""
or_empty (some s) = s

abbrev pub Point : Type 0
Point = Dict String String

abbrev pub Points : Type 0
Points = Dict String Point

-- The fields of a record under the headers; a header beyond the end of the record has none.
unfoldable pub point_from : List String → List String → Point → Point
point_from [] record_fields point = point
point_from (header ∷ headers) [] point = point
point_from (header ∷ headers) (field ∷ fields) point =
    point_from headers fields (insert header (trim_space field) point)

unfoldable pub load_tmc_points : List String → List (List String) → List Point
load_tmc_points headers [] = []
load_tmc_points headers (fields ∷ rest) =
    point_from headers fields [] ∷ load_tmc_points headers rest

-- The loop of `load`.
unfoldable pub rebuild : Points → List Point → Points
rebuild rebuilt [] = rebuilt
rebuild rebuilt (point ∷ rest) =
    let lcd = trim_space (or_empty (lookup "LCD" point)) in
    rebuild (if lcd == "" then rebuilt else insert lcd point rebuilt) rest

-- `load`; `none` is a failure, which leaves the table as it is.
unfoldable pub load : Points → Option (List String × List (List String)) → Points
load points none = points
load points (some (headers, rows)) = rebuild [] (load_tmc_points headers rows)

-- `strings.ReplaceAll(value, ",", ".")`
abbrev comma_to_point : String → String
comma_to_point String.[] = String.[]
comma_to_point (String.◌∷◌ c s) =
    let rest = comma_to_point s in if code c == 44 then "." ⧺ rest else String.◌∷◌ c rest

unfoldable pub is_loaded : Points → Bool
is_loaded [] = false
is_loaded (point ∷ rest) = true

abbrev strip : ℕ → String → Option String
strip n String.[] = none
strip n (String.◌∷◌ c s) = if code c == n then some s else none

-- The digits that a text begins with, and what follows them.
abbrev digits : String → String × String
digits String.[] = ("", "")
digits (String.◌∷◌ c s) =
    let rest = digits s in
    if leb 48 (code c) && leb (code c) 57
    then (String.◌∷◌ c rest.0, rest.1)
    else ("", String.◌∷◌ c s)

abbrev both_codes : String → String × String → Option (String × String)
both_codes primary (secondary, rest) =
    if secondary == "" then none else if rest == "" then some (primary, secondary) else none

abbrev after_primary : String × String → Option (String × String)
after_primary (primary, rest) =
    if primary == ""
    then none
    else elim (strip 84 rest) [ none ↦ none | some t ↦ both_codes primary (digits t) ]

-- `sourceIDLocationPattern`: TS, digits, T and digits.
unfoldable pub match_location : String → Option (String × String)
match_location s = elim (strip 84 s) [
  | none ↦ none
  | some t ↦ elim (strip 83 t) [ none ↦ none | some d ↦ after_primary (digits d) ]
]

abbrev with_codes : {F : Type 0} → Snapshot F → Option (String × String) → Snapshot F
with_codes s none = s
with_codes s (some (primary, secondary)) = record s {
  primary_location_code = primary;
  secondary_location_code = secondary;
}

unfoldable pub ensure_snapshot_location_codes : {F : Type 0} → Snapshot F → Snapshot F
ensure_snapshot_location_codes s =
    if s.primary_location_code == "" && s.secondary_location_code == ""
    then with_codes s (match_location (trim_space s.source_identification))
    else s

module _ {F : Type 0} (parse_float : String → Option F) where
  unfoldable pub parse_localized_float : String → Option F
  parse_localized_float value =
      let trimmed = trim_space (comma_to_point value) in
      if trimmed == "" then none else parse_float trimmed

  abbrev metadata_of : String → Point → TmcMetadata F
  metadata_of location_code point =
      let field = λ (key : String). trim_space (or_empty (lookup key point)) in
      record {
        location_code = location_code;
        point_name = compose_point_name point;
        area_ref = field "AREA_REF";
        area_name = field "AREA_NAME";
        road_lcd = field "ROA_LCD";
        segment_lcd = field "SEG_LCD";
        road_number = field "ROADNUMBER";
        road_name = field "ROADNAME";
        latitude = parse_localized_float (or_empty (lookup "WGS84_Y" point));
        longitude = parse_localized_float (or_empty (lookup "WGS84_X" point));
      }

  unfoldable pub lookup_point : Points → String → Option (TmcMetadata F)
  lookup_point points location_code = elim (lookup location_code points) [
    | none ↦ none
    | some point ↦ some (metadata_of location_code point)
  ]

  -- The metadata of the first of the codes that has any; an empty code is passed over.
  unfoldable pub first_metadata :
      Points → List String → Option (TmcMetadata F) → Option (TmcMetadata F)
  first_metadata points [] old = old
  first_metadata points (location_code ∷ rest) old =
      if location_code == ""
      then first_metadata points rest old
      else elim (lookup_point points location_code) [
        | none ↦ first_metadata points rest old
        | some metadata ↦ some metadata
      ]

  abbrev with_metadata : Points → Snapshot F → Snapshot F
  with_metadata points s = record s {
    tmc_metadata =
        first_metadata points (s.primary_location_code ∷ s.secondary_location_code ∷ [])
          s.tmc_metadata;
  }

  unfoldable pub enrich_snapshot : Points → Snapshot F → Snapshot F
  enrich_snapshot points s = with_metadata points (ensure_snapshot_location_codes s)

  unfoldable pub enrich_all : Points → Dict String (Snapshot F) → Dict String (Snapshot F)
  enrich_all points [] = []
  enrich_all points ((uid, s) ∷ rest) = (uid, enrich_snapshot points s) ∷ enrich_all points rest

  unfoldable pub enrich_fetch : Points → ParsedFetch F → ParsedFetch F
  enrich_fetch points fetch =
      if is_loaded points
      then record fetch { snapshots = enrich_all points fetch.snapshots }
      else fetch
