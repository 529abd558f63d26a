-- ===== src/Mhd/Segment.antt =====
-- backend/mhd-preprocessor/src/segment.go: the part of its trip on which a vehicle is.
pub mod Position
mod Tests
use Prim.Native.Char.{code}
use rio_t_preprocessors.Base.{
  ℕ, zero, suc, ◌+◌, ◌-◌, Bool, true, false, not, ◌&&◌, ◌||◌, String, string_eq, nat_eq, ◌==◌, leb,
  ltb, if◌then◌else◌, Option, none, some, List, [], ◌∷◌, length, get_elem?,
}
use rio_t_preprocessors.Base.Text.{trim_space}
use rio_t_preprocessors.Base.Float.{Float64}
use rio_t_preprocessors.Mhd.Model.{LiveRecord, StopMetadata, TripDefinition}

pub record SegmentMatch (F : Type 0) : Type 0 where
  pub index : ℕ
  pub from : StopMetadata F
  pub to : StopMetadata F
  pub progress : F

unfoldable pub is_digit : ℕ → Bool
is_digit c = leb 48 c && leb c 57

-- The digits at the start of a text.
unfoldable pub leading_digits : String → String
unfolding is_digit
leading_digits String.[] = ""
leading_digits (String.◌∷◌ c s) =
    let rest = leading_digits s in if is_digit (code c) then String.◌∷◌ c rest else ""

-- The first match of the pattern `\d+`.
unfoldable pub first_number : String → String
unfolding leading_digits
first_number String.[] = ""
first_number (String.◌∷◌ c s) =
    let rest = first_number s in if is_digit (code c) then String.◌∷◌ c (leading_digits s) else rest

unfoldable pub normalize_stop_identity : String → String
unfolding trim_space first_number
normalize_stop_identity value =
    let trimmed = trim_space value in
    let number = first_number trimmed in
    if trimmed == "" then "" else if number == "" then trimmed else number

module _ {F : Type 0} where
  -- The loop over `idx < len(stops)-1`, which keeps the last match.
  unfoldable pub last_match : String → ℕ → Option ℕ → List (StopMetadata F) → Option ℕ
  last_match target idx best [] = best
  last_match target idx best (stop ∷ []) = best
  last_match target idx best (stop ∷ next ∷ rest) =
      last_match target (idx + 1)
        (if normalize_stop_identity stop.id == target then some idx else best) (next ∷ rest)

  unfoldable pub segment_index_from_last_stop : List (StopMetadata F) → String → Option ℕ
  unfolding last_match
  segment_index_from_last_stop stops last_stop_id =
      let target = normalize_stop_identity last_stop_id in
      if target == "" || ltb (length stops) 2 then none else last_match target 0 none stops

module _ (fl : Float64) where
  open fl use {F, f_zero, f_one, f_max, lt, eq, add, sub, mul, div}

  unfoldable pub valid_coords : F → F → Bool
  valid_coords lat lng = not (eq lat f_zero && eq lng f_zero)

  -- `if t < 0 { 0 } else if t > 1 { 1 } else { t }`
  unfoldable pub clamp_unit : F → F
  clamp_unit t = if lt t f_zero then f_zero else if lt f_one t then f_one else t

  unfoldable pub segment_progress : StopMetadata F → StopMetadata F → F → F → F
  segment_progress from to lat lng =
      if not (valid_coords from.lat from.lng)
        || not (valid_coords to.lat to.lng)
        || not (valid_coords lat lng)
      then f_zero
      else (let vx = sub to.lat from.lat in
          let vy = sub to.lng from.lng in
          let length_squared = add (mul vx vx) (mul vy vy) in
          if eq length_squared f_zero
          then f_zero
          else clamp_unit
              (div (add (mul (sub lat from.lat) vx) (mul (sub lng from.lng) vy)) length_squared))

  unfoldable pub point_to_segment_distance_squared : F → F → F → F → F → F → F
  unfolding clamp_unit
  point_to_segment_distance_squared ax ay bx by px py =
      let vx = sub bx ax in
      let vy = sub by ay in
      let length_squared = add (mul vx vx) (mul vy vy) in
      if eq length_squared f_zero
      then (let dx = sub px ax in let dy = sub py ay in add (mul dx dx) (mul dy dy))
      else (let t =
            clamp_unit (div (add (mul (sub px ax) vx) (mul (sub py ay) vy)) length_squared) in
          let dx = sub px (add ax (mul t vx)) in
          let dy = sub py (add ay (mul t vy)) in add (mul dx dx) (mul dy dy))

  -- The loop: the first of the nearest segments between stops with coordinates.
  unfoldable pub nearest_loop : F → F → ℕ → Option ℕ → F → List (StopMetadata F) → Option ℕ
  unfolding valid_coords
  nearest_loop lat lng idx best best_distance [] = best
  nearest_loop lat lng idx best best_distance (from ∷ []) = best
  nearest_loop lat lng idx best best_distance (from ∷ to ∷ rest) =
      let distance = point_to_segment_distance_squared from.lat from.lng to.lat to.lng lat lng in
      let nearer =
        valid_coords from.lat from.lng && valid_coords to.lat to.lng && lt distance best_distance in
      nearest_loop lat lng (idx + 1) (if nearer then some idx else best)
        (if nearer then distance else best_distance) (to ∷ rest)

  unfoldable pub nearest_stop_segment_index : List (StopMetadata F) → F → F → Option ℕ
  nearest_stop_segment_index stops lat lng =
      if ltb (length stops) 2 || not (valid_coords lat lng)
      then none
      else nearest_loop lat lng 0 none f_max stops

  unfoldable pub new_segment_match :
      List (StopMetadata F) → ℕ → LiveRecord F → Option (SegmentMatch F)
  new_segment_match stops index live =
      if leb (length stops - 1) index then none else elim (get_elem? stops index) [
        | none ↦ none
        | some from ↦ elim (get_elem? stops (index + 1)) [
          | none ↦ none
          | some to ↦ some (record {
            index = index;
            from = from;
            to = to;
            progress = segment_progress from to live.geometry_lat live.geometry_lng;
          })
        ]
      ]

  -- The definition is `nil` or not.
  unfoldable pub build_segment_match :
      Option (TripDefinition F) → LiveRecord F → Option (SegmentMatch F)
  build_segment_match none live = none
  build_segment_match (some definition) live =
      let stops = definition.stop_metadata in
      let nearest = nearest_stop_segment_index stops live.geometry_lat live.geometry_lng in
      if ltb (length stops) 2
      then none
      else elim (segment_index_from_last_stop stops live.last_stop_id) [
        | some index ↦ new_segment_match stops index live
        | none ↦ elim nearest [ some index ↦ new_segment_match stops index live | none ↦ none ]
      ]
