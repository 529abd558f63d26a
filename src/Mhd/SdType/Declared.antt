-- ===== src/Mhd/SdType/Declared.antt =====
-- The messages of the preprocessor against the type that it registers.
use rio_t_preprocessors.Base.{true, false, String, string_eq, Option, none, some, [], ◌∷◌, refl}
use rio_t_preprocessors.Base.Maps.{Dict, insert}
use rio_t_preprocessors.Commons.Messages.{Param, text, flag}
use rio_t_preprocessors.Commons.Declared.{
  DeclaredTags, DeclaredParams, no_params, insert-DeclaredParams,
}
use rio_t_preprocessors.Mhd.Model.{LiveRecord, TripDefinition, TripOccurrence}
use rio_t_preprocessors.Mhd.Segment.{SegmentMatch}
use rio_t_preprocessors.Mhd.Publish.{
  Formats, build_trip_tags, assign_tags, tags_to_params, assign_params, segment_params, live_fields,
  build_active_params, build_inactive_params,
}
use rio_t_preprocessors.Mhd.SdType.{sd_type_registration}

assign_tags-DeclaredParams :
    {F : Type 0} (tags : Dict String String) (params : Dict String (Param F))
    → DeclaredTags sd_type_registration tags
    → DeclaredParams sd_type_registration params
    → DeclaredParams sd_type_registration (assign_tags tags params)
unfolding assign_tags
assign_tags-DeclaredParams [] params h p = p
assign_tags-DeclaredParams ((key, value) ∷ rest) params h p =
    assign_tags-DeclaredParams rest (insert key (text value) params)
      (record { each_tag = h.each_tag.1 }) (insert-DeclaredParams key (text value) h.each_tag.0 p)

assign_params-DeclaredParams :
    {F : Type 0} (fields params : Dict String (Param F))
    → DeclaredParams sd_type_registration fields
    → DeclaredParams sd_type_registration params
    → DeclaredParams sd_type_registration (assign_params fields params)
unfolding assign_params
assign_params-DeclaredParams [] params h p = p
assign_params-DeclaredParams ((key, value) ∷ rest) params h p =
    assign_params-DeclaredParams rest (insert key value params)
      (record { each_param = h.each_param.1 }) (insert-DeclaredParams key value h.each_param.0 p)

module _ {F : Type 0} (formats : Formats) where
  build_trip_tags-DeclaredTags :
      (definition : TripDefinition F) (occurrence : TripOccurrence) (live : LiveRecord F)
      → DeclaredTags sd_type_registration (build_trip_tags formats definition occurrence live)
  unfolding build_trip_tags sd_type_registration
  build_trip_tags-DeclaredTags definition occurrence live = record {
    each_tag = (
      refl,
      (refl, (refl, (refl, (refl, (refl, (refl, (refl, (refl, (refl, (refl, (refl, tt))))))))))),
    );
  }

  segment_params-DeclaredParams :
      (segment : Option (SegmentMatch F))
      → DeclaredParams sd_type_registration (segment_params segment)
  unfolding sd_type_registration
  segment_params-DeclaredParams none = no_params
  segment_params-DeclaredParams (some segment) = record { each_param = (refl, (refl, tt)) }

  -- Every parameter that the preprocessor publishes for a matched record, active or inactive, is
  -- declared in the type that it registers, with the type of its value.
  pub trip_params-DeclaredParams :
      (definition : TripDefinition F) (occurrence : TripOccurrence) (live : LiveRecord F)
      (segment : Option (SegmentMatch F))
      → let tags = build_trip_tags formats definition occurrence live in
        DeclaredParams sd_type_registration (build_active_params formats tags live segment)
        × DeclaredParams sd_type_registration (build_inactive_params {F = F} tags)
  unfolding build_active_params build_inactive_params tags_to_params sd_type_registration
  trip_params-DeclaredParams definition occurrence live segment =
      let own : DeclaredParams {F = F} sd_type_registration [] = no_params in
      let tags =
        assign_tags-DeclaredParams (build_trip_tags formats definition occurrence live) []
          (build_trip_tags-DeclaredTags definition occurrence live) own in
      (
        insert-DeclaredParams "isinactive" (flag false) refl (
            assign_params-DeclaredParams (segment_params segment) _
              (segment_params-DeclaredParams segment)
              (assign_params-DeclaredParams (live_fields formats live) _
                (record {
                  each_param = (
                    refl,
                    (
                      refl,
                      (
                        refl,
                        (
                          refl,
                          (
                            refl,
                            (
                              refl,
                              (
                                refl,
                                (
                                  refl,
                                  (
                                    refl,
                                    (
                                      refl,
                                      (
                                        refl,
                                        (
                                          refl,
                                          (
                                            refl,
                                            (
                                              refl,
                                              (
                                                refl,
                                                (
                                                  refl,
                                                  (
                                                    refl,
                                                    (refl, (refl, (refl, (refl, (refl, tt))))),
                                                  ),
                                                ),
                                              ),
                                            ),
                                          ),
                                        ),
                                      ),
                                    ),
                                  ),
                                ),
                              ),
                            ),
                          ),
                        ),
                      ),
                    ),
                  );
                })
                tags)),
        insert-DeclaredParams "isinactive" (flag true) refl tags,
      )
