-- ===== src/Waze/SdType/Declared.antt =====
-- The messages of the preprocessor against the type that it registers.
use rio_t_preprocessors.Base.{String, string_eq, Option, none, some, [], ◌∷◌, refl}
use rio_t_preprocessors.Base.Maps.{Dict, insert}
use rio_t_preprocessors.Base.Time.{Time}
use rio_t_preprocessors.Base.Float.{Float64}
use rio_t_preprocessors.Commons.Messages.{Param, text, number}
use rio_t_preprocessors.Commons.Declared.{
  DeclaredTags, DeclaredParams, no_params, insert-DeclaredParams,
}
use rio_t_preprocessors.Commons.Json.{Members}
use rio_t_preprocessors.Waze.Model.{SegmentReference, DeviceAggregate}
use rio_t_preprocessors.Waze.Aggregation.{
  set_raw_jams, assign_tags, tags_to_params, aggregate_of, build_active_params,
  build_zero_delay_params,
}
use rio_t_preprocessors.Waze.Parsing.{sort_raw_jams}
use rio_t_preprocessors.Waze.Lifecycle.{Environment}
use rio_t_preprocessors.Waze.SdType.{sd_type_registration}

assign_tags-DeclaredParams :
    {F : Type 0} (tags : Dict String String) (params : Dict String (Param F))
    → DeclaredTags sd_type_registration tags
    → DeclaredParams sd_type_registration params
    → DeclaredParams sd_type_registration (assign_tags tags params)
unfolding assign_tags
assign_tags-DeclaredParams [] params h p = p
assign_tags-DeclaredParams ((key, value) ∷ rest) params h p =
    assign_tags-DeclaredParams rest (insert key (text value) params)
      (record { each_tag = h.each_tag.1 }) (insert-DeclaredParams key (text value) h.each_tag.0 p)

module _ (fl : Float64) (env : Environment fl) where
  open fl use {F, f_zero}

  pub aggregate_of-DeclaredTags :
      (now : Time) (jam : Members F) (segment : SegmentReference)
      → DeclaredTags sd_type_registration
          (aggregate_of fl env.minus_one env.conv now jam segment).tags
  unfolding aggregate_of sd_type_registration
  aggregate_of-DeclaredTags now jam segment = record {
    each_tag = (refl, (refl, (refl, (refl, (refl, (refl, (refl, (refl, tt))))))));
  }

  set_raw_jams-DeclaredParams :
      (raw : Option String) {params : Dict String (Param F)}
      → DeclaredParams sd_type_registration params
      → DeclaredParams sd_type_registration (set_raw_jams raw params)
  unfolding sd_type_registration
  set_raw_jams-DeclaredParams none h = h
  set_raw_jams-DeclaredParams (some raw) h = insert-DeclaredParams "rawJams" (text raw) refl h

  -- Every parameter that is published for an aggregate whose tags are declared is declared in the
  -- type that the preprocessor registers, with the type of its value, with jams or without.
  pub aggregate_params-DeclaredParams :
      (a : DeviceAggregate F)
      → DeclaredTags sd_type_registration a.tags
      → DeclaredParams sd_type_registration
          (build_active_params fl env.minus_one env.conv env.of_count env.marshal a)
        × DeclaredParams sd_type_registration
            (build_zero_delay_params fl env.minus_one env.conv a.tags)
  unfolding build_active_params build_zero_delay_params tags_to_params sd_type_registration
  aggregate_params-DeclaredParams a d =
      let own : DeclaredParams {F = F} sd_type_registration [] = no_params in
      let tags = assign_tags-DeclaredParams a.tags [] d own in
      let numbers = insert-DeclaredParams "jamCount" (number (env.of_count a.jam_count)) refl (
        insert-DeclaredParams "speedKPH" (number a.speed_kph) refl (
          insert-DeclaredParams "speed" (number a.speed) refl (
            insert-DeclaredParams "level" (number a.level) refl (
              insert-DeclaredParams "length" (number a.length) refl
                (insert-DeclaredParams "delay" (number a.delay) refl tags))))) in
      (
        set_raw_jams-DeclaredParams (env.marshal (sort_raw_jams env.conv a.raw_jams)) numbers,
        insert-DeclaredParams "rawJams" (text "[]") refl (
            insert-DeclaredParams "jamCount" (number f_zero) refl
              (insert-DeclaredParams "delay" (number f_zero) refl tags)),
      )
