-- ===== src/Mhd/SdType.antt =====
-- backend/mhd-preprocessor/src/sdtype.go: the type that the preprocessor registers, and its parameters.
pub mod Declared
mod Tests
use rio_t_preprocessors.Base.{String, List, [], ◌∷◌}
use rio_t_preprocessors.Commons.Messages.{
  SdParameter, SdTypeRegistration, boolean_type, number_type, string_type, field_role, tag_role,
}
use rio_t_preprocessors.Commons.Declared.{parameter}
use rio_t_preprocessors.Mhd.Model.{mhd_sd_type_uid}

unfoldable pub parameters : List SdParameter
parameters =
    parameter "lineid" "Line ID" string_type tag_role
    ∷ parameter "routeid" "Route ID" string_type tag_role
    ∷ parameter "service_date" "Service Date" string_type tag_role
    ∷ parameter "trip_id" "Trip ID" string_type tag_role
    ∷ parameter "route_id" "GTFS Route ID" string_type tag_role
    ∷ parameter "direction_id" "Direction ID" string_type tag_role
    ∷ parameter "departure_time" "Departure Time" string_type tag_role
    ∷ parameter "from_stop_id" "From Stop ID" string_type tag_role
    ∷ parameter "to_stop_id" "To Stop ID" string_type tag_role
    ∷ parameter "finalstopid" "Final Stop ID" string_type tag_role
    ∷ parameter "vtype" "Vehicle Type" string_type tag_role
    ∷ parameter "serviceDays" "Service Days" string_type tag_role
    ∷ parameter "globalid" "Global ID" string_type field_role
    ∷ parameter "id" "Vehicle Runtime ID" string_type field_role
    ∷ parameter "linename" "Line Name" string_type field_role
    ∷ parameter "course" "Course" string_type field_role
    ∷ parameter "ltype" "Line Type" string_type field_role
    ∷ parameter "lf" "Low Floor" string_type field_role
    ∷ parameter "laststopid" "Last Stop ID" string_type field_role
    ∷ parameter "lastpostid" "Last Post ID" string_type field_role
    ∷ parameter "lat" "Latitude" number_type field_role
    ∷ parameter "lng" "Longitude" number_type field_role
    ∷ parameter "bearing" "Bearing" number_type field_role
    ∷ parameter "delay" "Delay" number_type field_role
    ∷ parameter "finalstopname" "Final Stop Name" string_type field_role
    ∷ parameter "serviceid" "Live Service ID" string_type field_role
    ∷ parameter "departuredt" "Departure Datetime" string_type field_role
    ∷ parameter "ocfinalstopid" "OC Final Stop ID" string_type field_role
    ∷ parameter "ocfinalstopname" "OC Final Stop Name" string_type field_role
    ∷ parameter "oclineid" "OC Line ID" string_type field_role
    ∷ parameter "oclinename" "OC Line Name" string_type field_role
    ∷ parameter "ocrouteid" "OC Route ID" string_type field_role
    ∷ parameter "state" "Live State" string_type field_role
    ∷ parameter "segment_from_stop_id" "Segment From Stop ID" string_type field_role
    ∷ parameter "segment_to_stop_id" "Segment To Stop ID" string_type field_role
    ∷ parameter "tmflagtext" "TM Flag Text" string_type field_role
    ∷ parameter "isinactive" "Is Inactive" boolean_type field_role
    ∷ []

unfoldable pub sd_type_registration : SdTypeRegistration
unfolding parameters
sd_type_registration = record {
  sd_type_uid = mhd_sd_type_uid;
  label = "MHD Trip";
  parameters = parameters;
}
