-- ===== src/Waze/SdType.antt =====
-- `registerSDType` of backend/wazejam-preprocessor/src/lifecycle.go: the type that the preprocessor registers, and its parameters.
pub mod Declared
mod Tests
use rio_t_preprocessors.Base.{String, List, [], ◌∷◌}
use rio_t_preprocessors.Commons.Messages.{
  SdParameter, SdTypeRegistration, number_type, string_type, field_role, tag_role,
}
use rio_t_preprocessors.Commons.Declared.{parameter}
use rio_t_preprocessors.Waze.Model.{waze_sd_type_uid}

unfoldable pub parameters : List SdParameter
parameters =
    parameter "country" "Country" string_type tag_role
    ∷ parameter "city" "City" string_type tag_role
    ∷ parameter "street" "Street" string_type tag_role
    ∷ parameter "roadType" "Road Type" string_type field_role
    ∷ parameter "segmentId" "Segment ID" string_type tag_role
    ∷ parameter "fromNode" "From Node" string_type tag_role
    ∷ parameter "toNode" "To Node" string_type tag_role
    ∷ parameter "isForward" "Is Forward" string_type tag_role
    ∷ parameter "delay" "Delay" number_type field_role
    ∷ parameter "length" "Length" number_type field_role
    ∷ parameter "level" "Level" number_type field_role
    ∷ parameter "speed" "Speed" number_type field_role
    ∷ parameter "speedKPH" "Speed KPH" number_type field_role
    ∷ parameter "jamCount" "Jam Count" number_type field_role
    ∷ parameter "rawJams" "Raw Jams" string_type field_role
    ∷ []

unfoldable pub sd_type_registration : SdTypeRegistration
unfolding parameters
sd_type_registration = record {
  sd_type_uid = waze_sd_type_uid;
  label = "Waze Jam Location";
  parameters = parameters;
}
