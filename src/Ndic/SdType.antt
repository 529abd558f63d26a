-- ===== src/Ndic/SdType.antt =====
-- backend/ndic-preprocessor/src/sdtype.go: the type that the preprocessor registers, and its parameters.
pub mod Declared
mod Tests
use rio_t_preprocessors.Base.{String, List, [], ◌∷◌}
use rio_t_preprocessors.Commons.Messages.{
  SdParameter, SdTypeRegistration, boolean_type, number_type, string_type, field_role, tag_role,
}
use rio_t_preprocessors.Commons.Declared.{parameter}
use rio_t_preprocessors.Ndic.Model.{ndic_sd_type_uid}

unfoldable pub parameters : List SdParameter
parameters =
    parameter "sourceIdentification" "Source Identification" string_type tag_role
    ∷ parameter "primaryLocationCode" "Primary Location Code" string_type tag_role
    ∷ parameter "secondaryLocationCode" "Secondary Location Code" string_type tag_role
    ∷ parameter "tmcLocationCode" "TMC Location Code" string_type tag_role
    ∷ parameter "tmcPointName" "TMC Point Name" string_type tag_role
    ∷ parameter "tmcAreaRef" "TMC Area Ref" string_type tag_role
    ∷ parameter "tmcAreaName" "TMC Area Name" string_type tag_role
    ∷ parameter "tmcRoadLCD" "TMC Road LCD" string_type tag_role
    ∷ parameter "tmcSegmentLCD" "TMC Segment LCD" string_type tag_role
    ∷ parameter "tmcRoadNumber" "TMC Road Number" string_type tag_role
    ∷ parameter "tmcRoadName" "TMC Road Name" string_type tag_role
    ∷ parameter "trafficLevelAnyVehicle" "Traffic Level Any Vehicle" number_type field_role
    ∷ parameter "trafficSpeedAnyVehicle" "Traffic Speed Any Vehicle" number_type field_role
    ∷ parameter "travelTimeAnyVehicle" "Travel Time Any Vehicle" number_type field_role
    ∷ parameter "isInactive" "Is Inactive" boolean_type field_role
    ∷ parameter "tmcLatitude" "TMC Latitude" number_type field_role
    ∷ parameter "tmcLongitude" "TMC Longitude" number_type field_role
    ∷ []

unfoldable pub sd_type_registration : SdTypeRegistration
unfolding parameters
sd_type_registration = record {
  sd_type_uid = ndic_sd_type_uid;
  label = "NDIC Traffic";
  parameters = parameters;
}
