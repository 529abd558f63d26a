-- ===== src/Waze/SdType/Tests.antt =====
-- An example for the declared parameters.
use rio_t_preprocessors.Base.{ℕ}
use rio_t_preprocessors.Base.Int.{pos}
use rio_t_preprocessors.Base.Float.{whole}
use rio_t_preprocessors.Commons.Declared.{DeclaredParams}
use rio_t_preprocessors.Waze.Model.{DeviceAggregate}
use rio_t_preprocessors.Waze.Aggregation.{
  aggregate_of, build_active_params, build_zero_delay_params,
}
use rio_t_preprocessors.Waze.SdType.{sd_type_registration}
use rio_t_preprocessors.Waze.SdType.Declared.{
  aggregate_of-DeclaredTags, aggregate_params-DeclaredParams,
}
use rio_t_preprocessors.Waze.Samples.{env, jam_at, segment}

abbrev one_jam : DeviceAggregate ℕ
one_jam = aggregate_of whole env.minus_one env.conv (pos 0) (jam_at 3000) segment

aggregate_params-DeclaredParams_example :
    DeclaredParams sd_type_registration
      (build_active_params whole env.minus_one env.conv env.of_count env.marshal one_jam)
    × DeclaredParams sd_type_registration
        (build_zero_delay_params whole env.minus_one env.conv one_jam.tags)
aggregate_params-DeclaredParams_example =
    aggregate_params-DeclaredParams whole env one_jam
      (aggregate_of-DeclaredTags whole env (pos 0) (jam_at 3000) segment)
