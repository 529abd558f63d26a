-- ===== src/Ndic/SdType/Tests.antt =====
-- An example for the declared parameters.
use rio_t_preprocessors.Base.{ℕ}
use rio_t_preprocessors.Base.Int.{pos_part}
use rio_t_preprocessors.Commons.Declared.{DeclaredParams}
use rio_t_preprocessors.Ndic.Publish.{build_tags, build_active_params, build_inactive_params}
use rio_t_preprocessors.Ndic.SdType.{sd_type_registration}
use rio_t_preprocessors.Ndic.SdType.Declared.{snapshot_params-DeclaredParams}
use rio_t_preprocessors.Ndic.Samples.{snapshot}

snapshot_params-DeclaredParams_example :
    DeclaredParams sd_type_registration
      (build_active_params pos_part (build_tags (snapshot "A")) (snapshot "A"))
    × DeclaredParams sd_type_registration
        (build_inactive_params {F = ℕ} (build_tags (snapshot "A")))
snapshot_params-DeclaredParams_example = snapshot_params-DeclaredParams pos_part (snapshot "A")
