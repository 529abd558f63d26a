-- ===== src/Ndic/SdType/Declared.antt =====
-- The messages of the preprocessor against the type that it registers.
use rio_t_preprocessors.Base.{
  true, false, String, string_eq, ◌==◌, Option, none, some, [], ◌∷◌, ◌≡◌, refl, Bool-cases, inl,
  inr,
}
use rio_t_preprocessors.Base.Int.{ℤ}
use rio_t_preprocessors.Base.Maps.{Dict, insert}
use rio_t_preprocessors.Commons.Messages.{Param, text, number, flag, string_type, number_type}
use rio_t_preprocessors.Commons.Declared.{
  declared_type, DeclaredTags, DeclaredParams, no_params, insert-DeclaredTags,
  insert-DeclaredParams,
}
use rio_t_preprocessors.Ndic.Model.{Snapshot, TmcMetadata}
use rio_t_preprocessors.Ndic.Publish.{
  set_tag, set_tmc_tags, build_tags, assign_tags, tags_to_params, set_param, as_number, as_level,
  set_coordinates, build_active_params, build_inactive_params,
}
use rio_t_preprocessors.Ndic.SdType.{sd_type_registration}

set_tag-DeclaredTags :
    (key value : String) {tags : Dict String String}
    → declared_type sd_type_registration.parameters key ≡ some string_type
    → DeclaredTags sd_type_registration tags
    → DeclaredTags sd_type_registration (set_tag key value tags)
unfolding set_tag
set_tag-DeclaredTags key value {tags} d h = elim (Bool-cases (value == "")) [
  | inl y ↦ rw (y, set_tag) h
  | inr n ↦ rw (n, set_tag) (insert-DeclaredTags key value d h)
]

set_tmc_tags-DeclaredTags :
    {F : Type 0} (meta : Option (TmcMetadata F)) {tags : Dict String String}
    → DeclaredTags sd_type_registration tags
    → DeclaredTags sd_type_registration (set_tmc_tags meta tags)
unfolding set_tmc_tags sd_type_registration
set_tmc_tags-DeclaredTags none h = h
set_tmc_tags-DeclaredTags (some meta) h = set_tag-DeclaredTags "tmcRoadName" meta.road_name refl (
    set_tag-DeclaredTags "tmcRoadNumber" meta.road_number refl (
      set_tag-DeclaredTags "tmcSegmentLCD" meta.segment_lcd refl (
        set_tag-DeclaredTags "tmcRoadLCD" meta.road_lcd refl (
          set_tag-DeclaredTags "tmcAreaName" meta.area_name refl (
            set_tag-DeclaredTags "tmcAreaRef" meta.area_ref refl (
              set_tag-DeclaredTags "tmcPointName" meta.point_name refl
                (set_tag-DeclaredTags "tmcLocationCode" meta.location_code refl h)))))))

build_tags-DeclaredTags :
    {F : Type 0} (snapshot : Snapshot F) → DeclaredTags sd_type_registration (build_tags snapshot)
unfolding build_tags sd_type_registration
build_tags-DeclaredTags snapshot =
    let own : DeclaredTags sd_type_registration
        (("sourceIdentification", snapshot.source_identification) ∷ []) =
      record { each_tag = (refl, tt) } in
    set_tmc_tags-DeclaredTags snapshot.tmc_metadata (
      set_tag-DeclaredTags "secondaryLocationCode" snapshot.secondary_location_code refl
        (set_tag-DeclaredTags "primaryLocationCode" snapshot.primary_location_code refl own))

assign_tags-DeclaredParams :
    {F : Type 0} (tags : Dict String String) (params : Dict String (Param F))
    → DeclaredTags sd_type_registration tags
    → DeclaredParams sd_type_registration params
    → DeclaredParams sd_type_registration (assign_tags tags params)
unfolding assign_tags
assign_tags-DeclaredParams [] params h p = p
assign_tags-DeclaredParams ((key, value) ∷ rest) params h p =
    assign_tags-DeclaredParams rest (insert key (text value) params)
      (record { each_tag = h.each_tag.1 }) (insert-DeclaredParams key (text value) h.each_tag.0 p)

set_number-DeclaredParams :
    {F : Type 0} (key : String) (value : Option F) {params : Dict String (Param F)}
    → declared_type sd_type_registration.parameters key ≡ some number_type
    → DeclaredParams sd_type_registration params
    → DeclaredParams sd_type_registration (set_param key (as_number value) params)
unfolding set_param
set_number-DeclaredParams key none d h = h
set_number-DeclaredParams key (some x) d h = insert-DeclaredParams key (number x) d h

module _ {F : Type 0} (float_of_int : ℤ → F) where
  set_level-DeclaredParams :
      (value : Option ℤ) {params : Dict String (Param F)}
      → DeclaredParams sd_type_registration params
      → DeclaredParams sd_type_registration
          (set_param "trafficLevelAnyVehicle" (as_level float_of_int value) params)
  unfolding set_param sd_type_registration
  set_level-DeclaredParams none h = h
  set_level-DeclaredParams (some n) h =
      insert-DeclaredParams "trafficLevelAnyVehicle" (number (float_of_int n)) refl h

  set_coordinates-DeclaredParams :
      (meta : Option (TmcMetadata F)) {params : Dict String (Param F)}
      → DeclaredParams sd_type_registration params
      → DeclaredParams sd_type_registration (set_coordinates meta params)
  unfolding set_coordinates sd_type_registration
  set_coordinates-DeclaredParams none h = h
  set_coordinates-DeclaredParams (some meta) h =
      set_number-DeclaredParams "tmcLongitude" meta.longitude refl
        (set_number-DeclaredParams "tmcLatitude" meta.latitude refl h)

  -- Every parameter that the preprocessor publishes for a snapshot, active or inactive, is declared
  -- in the type that it registers, with the type of its value.
  pub snapshot_params-DeclaredParams :
      (snapshot : Snapshot F)
      → DeclaredParams sd_type_registration
          (build_active_params float_of_int (build_tags snapshot) snapshot)
        × DeclaredParams sd_type_registration (build_inactive_params {F = F} (build_tags snapshot))
  unfolding build_active_params build_inactive_params tags_to_params sd_type_registration
  snapshot_params-DeclaredParams snapshot =
      let own : DeclaredParams {F = F} sd_type_registration [] = no_params in
      let tags =
        assign_tags-DeclaredParams (build_tags snapshot) [] (build_tags-DeclaredTags snapshot)
          own in
      (
        set_coordinates-DeclaredParams snapshot.tmc_metadata (
            insert-DeclaredParams "isInactive" (flag false) refl (
              set_number-DeclaredParams "travelTimeAnyVehicle" snapshot.travel_time_any_vehicle refl
                (set_number-DeclaredParams "trafficSpeedAnyVehicle"
                  snapshot.traffic_speed_any_vehicle refl
                  (set_level-DeclaredParams snapshot.traffic_level_any_vehicle tags)))),
        insert-DeclaredParams "isInactive" (flag true) refl tags,
      )
