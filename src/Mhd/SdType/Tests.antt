-- ===== src/Mhd/SdType/Tests.antt =====
-- An example for the declared parameters.
use rio_t_preprocessors.Base.{ℕ, none}
use rio_t_preprocessors.Commons.Declared.{DeclaredParams}
use rio_t_preprocessors.Mhd.Publish.{build_trip_tags, build_active_params, build_inactive_params}
use rio_t_preprocessors.Mhd.SdType.{sd_type_registration}
use rio_t_preprocessors.Mhd.SdType.Declared.{trip_params-DeclaredParams}
use rio_t_preprocessors.Mhd.Samples.{formats, tram, late, seen_at}

trip_params-DeclaredParams_example :
    DeclaredParams sd_type_registration (
      build_active_params formats
        (build_trip_tags formats tram late (seen_at "20"))
        (seen_at "20")
        none)
    × DeclaredParams sd_type_registration
        (build_inactive_params {F = ℕ} (build_trip_tags formats tram late (seen_at "20")))
trip_params-DeclaredParams_example =
    trip_params-DeclaredParams formats tram late (seen_at "20") none
