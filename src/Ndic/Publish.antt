-- ===== src/Ndic/Publish.antt =====
-- backend/ndic-preprocessor/src/publish.go: the tags, parameters and messages of an instance.
use rio_t_preprocessors.Base.{
  true, false, String, string_eq, ◌==◌, if◌then◌else◌, Option, none, some, [], ◌∷◌,
}
use rio_t_preprocessors.Base.Int.{ℤ}
use rio_t_preprocessors.Base.Maps.{Dict, insert}
use rio_t_preprocessors.Base.Time.{Time}
use rio_t_preprocessors.Commons.Messages.{
  Param, text, number, flag, StateMessage, RegistrationMessage,
}
use rio_t_preprocessors.Ndic.Model.{Snapshot, TmcMetadata, ndic_sd_type_uid}

-- `if value != "" { tags[key] = value }`
unfoldable pub set_tag : String → String → Dict String String → Dict String String
set_tag key value tags = if value == "" then tags else insert key value tags

unfoldable pub set_tmc_tags :
    {F : Type 0} → Option (TmcMetadata F) → Dict String String → Dict String String
unfolding set_tag
set_tmc_tags none tags = tags
set_tmc_tags (some meta) tags = set_tag "tmcRoadName" meta.road_name (
    set_tag "tmcRoadNumber" meta.road_number (
      set_tag "tmcSegmentLCD" meta.segment_lcd (
        set_tag "tmcRoadLCD" meta.road_lcd (
          set_tag "tmcAreaName" meta.area_name (
            set_tag "tmcAreaRef" meta.area_ref (
              set_tag "tmcPointName" meta.point_name
                (set_tag "tmcLocationCode" meta.location_code tags)))))))

unfoldable pub build_tags : {F : Type 0} → Snapshot F → Dict String String
unfolding set_tmc_tags
build_tags snapshot = set_tmc_tags snapshot.tmc_metadata (
    set_tag "secondaryLocationCode" snapshot.secondary_location_code (
      set_tag "primaryLocationCode" snapshot.primary_location_code
        (("sourceIdentification", snapshot.source_identification) ∷ [])))

-- The loop of `tagsToParams`.
unfoldable pub assign_tags :
    {F : Type 0} → Dict String String → Dict String (Param F) → Dict String (Param F)
assign_tags [] params = params
assign_tags ((key, value) ∷ rest) params = assign_tags rest (insert key (text value) params)

unfoldable pub tags_to_params : {F : Type 0} → Dict String String → Dict String (Param F)
unfolding assign_tags
tags_to_params tags = assign_tags tags []

-- `if value != nil { params[key] = *value }`
unfoldable pub set_param :
    {F : Type 0} → String → Option (Param F) → Dict String (Param F) → Dict String (Param F)
set_param key none params = params
set_param key (some value) params = insert key value params

abbrev pub as_number : {F : Type 0} → Option F → Option (Param F)
as_number none = none
as_number (some x) = some (number x)

abbrev pub as_level : {F : Type 0} → (ℤ → F) → Option ℤ → Option (Param F)
as_level float_of_int none = none
as_level float_of_int (some n) = some (number (float_of_int n))

-- The block `if snapshot.TMCMetadata != nil` of `buildActiveParams`.
unfoldable pub set_coordinates :
    {F : Type 0} → Option (TmcMetadata F) → Dict String (Param F) → Dict String (Param F)
unfolding set_param
set_coordinates none params = params
set_coordinates (some meta) params =
    set_param "tmcLongitude" (as_number meta.longitude)
      (set_param "tmcLatitude" (as_number meta.latitude) params)

-- `float_of_int` is Go's conversion `float64(n)`.
unfoldable pub build_active_params :
    {F : Type 0} (float_of_int : ℤ → F) → Dict String String → Snapshot F → Dict String (Param F)
build_active_params float_of_int tags snapshot = set_coordinates snapshot.tmc_metadata (
    insert "isInactive" (flag false) (
      set_param "travelTimeAnyVehicle" (as_number snapshot.travel_time_any_vehicle) (
        set_param "trafficSpeedAnyVehicle" (as_number snapshot.traffic_speed_any_vehicle) (
          set_param "trafficLevelAnyVehicle"
            (as_level float_of_int snapshot.traffic_level_any_vehicle) (tags_to_params tags)))))

unfoldable pub build_inactive_params : {F : Type 0} → Dict String String → Dict String (Param F)
unfolding tags_to_params
build_inactive_params tags = insert "isInactive" (flag true) (tags_to_params tags)

unfoldable pub build_state_message :
    {F : Type 0} → String → Time → Dict String (Param F) → StateMessage F
build_state_message uid event_time params = record {
  event_time = event_time;
  sd_instance_uid = uid;
  sd_type_uid = ndic_sd_type_uid;
  parameters = params;
}

-- `now` is the clock read by `time.Now`.
unfoldable pub build_registration_message : Time → String → String → RegistrationMessage
build_registration_message now uid label = record {
  event_time = now;
  label = label;
  sd_instance_uid = uid;
  sd_type_uid = ndic_sd_type_uid;
}
