-- ===== src/Ndic/Labels.antt =====
-- backend/ndic-preprocessor/src/helpers.go, with `firstNonEmpty` and `composePointName` of tmc.go.
use rio_t_preprocessors.Base.{
  String, string_eq, ◌==◌, if◌then◌else◌, Option, none, some, List, [], ◌∷◌, ◌&&◌,
}
use rio_t_preprocessors.Base.Text.{trim_space, ◌⧺◌}
use rio_t_preprocessors.Base.Maps.{Dict, insert, lookup}
use rio_t_preprocessors.Ndic.Model.{Snapshot}

unfoldable pub first_non_empty : List String → String
first_non_empty [] = ""
first_non_empty (value ∷ rest) =
    let later = first_non_empty rest in if trim_space value == "" then later else trim_space value

unfoldable pub friendly_ndic_label : String → String
friendly_ndic_label value =
    let trimmed = trim_space value in if trimmed == "" then "Unknown" else trimmed

unfoldable pub value_or_empty {ℓ} : {T : Type ℓ} → Option T → (T → String) → String
value_or_empty none getter = ""
value_or_empty (some value) getter = trim_space (getter value)

-- The snapshot is `nil` or not.
unfoldable pub build_ndic_instance_label : {F : Type 0} → Option (Snapshot F) → String
unfolding first_non_empty friendly_ndic_label value_or_empty
build_ndic_instance_label none = "Unknown | Unknown [Unknown]"
build_ndic_instance_label (some snapshot) =
    let meta = snapshot.tmc_metadata in
    let location_code = first_non_empty (
      value_or_empty meta (λ m. m.location_code)
      ∷ snapshot.primary_location_code
      ∷ snapshot.secondary_location_code
      ∷ []) in
    let road =
      first_non_empty
        (value_or_empty meta (λ m. m.road_number) ∷ value_or_empty meta (λ m. m.road_name) ∷ []) in
    let point =
      first_non_empty
        (value_or_empty meta (λ m. m.point_name) ∷ value_or_empty meta (λ m. m.area_name) ∷ []) in
    friendly_ndic_label road
    ⧺ " | "
    ⧺ friendly_ndic_label point
    ⧺ " ["
    ⧺ friendly_ndic_label location_code
    ⧺ "]"

unfoldable pub compose_point_name : Dict String String → String
unfolding lookup
compose_point_name point =
    let field = λ (key : String). trim_space (elim (lookup key point) [ none ↦ "" | some v ↦ v ]) in
    let first = field "FIRSTNAME" in
    let second = field "SECONDNAME" in
    if first == "" && second == ""
    then ""
    else if second == ""
    then first
    else if first == ""
    then second
    else first ⧺ " - " ⧺ second

-- The loop of `cloneTags`.
unfoldable pub assign_all : Dict String String → Dict String String → Dict String String
unfolding insert
assign_all [] acc = acc
assign_all ((key, value) ∷ rest) acc = assign_all rest (insert key value acc)

unfoldable pub clone_tags : Dict String String → Dict String String
unfolding assign_all
clone_tags tags = assign_all tags []
