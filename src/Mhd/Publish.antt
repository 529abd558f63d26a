-- ===== src/Mhd/Publish.antt =====
-- backend/mhd-preprocessor/src/publish.go: the tags, parameters and messages of a trip instance,
-- with `registerInstanceIfNeeded`. What `time.Format` and `json.Marshal` answer is a parameter.
use rio_t_preprocessors.Base.{
  true, false, String, string_eq, ◌==◌, if◌then◌else◌, Option, none, some, List, [], ◌∷◌,
}
use mathlib.Core.Option.{get_or}
use rio_t_preprocessors.Base.Maps.{Dict, insert}
use rio_t_preprocessors.Base.Text.{trim_space}
use rio_t_preprocessors.Base.Time.{Time}
use rio_t_preprocessors.Commons.Messages.{
  Param, text, number, flag, StateMessage, RegistrationMessage,
}
use rio_t_preprocessors.Mhd.Model.{LiveRecord, TripDefinition, TripOccurrence, mhd_sd_type_uid}
use rio_t_preprocessors.Mhd.Segment.{SegmentMatch}

pub record Formats : Type 0 where
  pub format_date : Time → String
  pub format_nano : Time → String
  pub marshal_strings : List String → Option String

unfoldable pub first_non_empty : List String → String
unfolding trim_space
first_non_empty [] = ""
first_non_empty (value ∷ rest) =
    let later = first_non_empty rest in if trim_space value == "" then later else value

module _ {F : Type 0} (formats : Formats) where
  unfoldable pub build_trip_tags :
      TripDefinition F → TripOccurrence → LiveRecord F → Dict String String
  unfolding first_non_empty
  build_trip_tags definition occurrence live =
      let days = get_or (formats.marshal_strings definition.service_days) "[]" in
      ("lineid", first_non_empty (live.line_id ∷ definition.line_id ∷ []))
      ∷ ("routeid", first_non_empty (live.live_route_id ∷ definition.live_route_id ∷ []))
      ∷ ("service_date", formats.format_date occurrence.service_date)
      ∷ ("trip_id", first_non_empty (occurrence.trip_id ∷ definition.trip_id ∷ []))
      ∷ ("route_id", definition.route_id)
      ∷ ("direction_id", definition.direction_id)
      ∷ ("departure_time", definition.departure_time)
      ∷ ("from_stop_id", definition.from_stop_id)
      ∷ ("to_stop_id", definition.to_stop_id)
      ∷ ("finalstopid", first_non_empty (live.final_stop_id ∷ definition.to_stop_id ∷ []))
      ∷ ("vtype", live.vehicle_type)
      ∷ ("serviceDays", days)
      ∷ []

-- The loop of `tagsToParams`.
unfoldable pub assign_tags :
    {F : Type 0} → Dict String String → Dict String (Param F) → Dict String (Param F)
assign_tags [] params = params
assign_tags ((key, value) ∷ rest) params = assign_tags rest (insert key (text value) params)

unfoldable pub tags_to_params : {F : Type 0} → Dict String String → Dict String (Param F)
unfolding assign_tags
tags_to_params tags = assign_tags tags []

-- A run of assignments `params[key] = value`, the first one first.
unfoldable pub assign_params :
    {F : Type 0} → Dict String (Param F) → Dict String (Param F) → Dict String (Param F)
assign_params [] params = params
assign_params ((key, value) ∷ rest) params = assign_params rest (insert key value params)

abbrev pub segment_params : {F : Type 0} → Option (SegmentMatch F) → Dict String (Param F)
segment_params none = []
segment_params (some segment) =
    ("segment_from_stop_id", text segment.from.id) ∷ ("segment_to_stop_id", text segment.to.id) ∷ []

-- The assignments of `buildActiveParams` that do not depend on the segment.
abbrev pub live_fields : {F : Type 0} → Formats → LiveRecord F → Dict String (Param F)
live_fields formats live =
    let departure =
      (if live.observed_departure_valid
        then formats.format_nano live.observed_departure_time
        else "") in
    ("globalid", text live.global_id)
    ∷ ("id", text live.vehicle_runtime_id)
    ∷ ("linename", text live.line_name)
    ∷ ("course", text live.course)
    ∷ ("ltype", text live.line_type)
    ∷ ("lf", text live.low_floor)
    ∷ ("laststopid", text live.last_stop_id)
    ∷ ("lastpostid", text live.last_post_id)
    ∷ ("lat", number live.geometry_lat)
    ∷ ("lng", number live.geometry_lng)
    ∷ ("bearing", number live.bearing)
    ∷ ("delay", number live.delay)
    ∷ ("finalstopname", text live.final_stop_name)
    ∷ ("serviceid", text live.service_id)
    ∷ ("departuredt", text departure)
    ∷ ("ocfinalstopid", text live.oc_final_stop_id)
    ∷ ("ocfinalstopname", text live.oc_final_stop_name)
    ∷ ("oclineid", text live.oc_line_id)
    ∷ ("oclinename", text live.oc_line_name)
    ∷ ("ocrouteid", text live.oc_route_id)
    ∷ ("state", text live.state)
    ∷ ("tmflagtext", text live.tm_flag_text)
    ∷ []

unfoldable pub build_active_params :
    {F : Type 0}
    → Formats
    → Dict String String
    → LiveRecord F
    → Option (SegmentMatch F)
    → Dict String (Param F)
unfolding tags_to_params assign_params
build_active_params formats tags live segment = insert "isinactive" (flag false) (
    assign_params (segment_params segment)
      (assign_params (live_fields formats live) (tags_to_params tags)))

unfoldable pub build_inactive_params : {F : Type 0} → Dict String String → Dict String (Param F)
unfolding tags_to_params
build_inactive_params tags = insert "isinactive" (flag true) (tags_to_params tags)

unfoldable pub build_state_message :
    {F : Type 0} → String → Time → Dict String (Param F) → StateMessage F
build_state_message uid event_time params = record {
  event_time = event_time;
  sd_instance_uid = uid;
  sd_type_uid = mhd_sd_type_uid;
  parameters = params;
}

-- `now` is the clock read by `time.Now`.
unfoldable pub build_registration_message : Time → String → String → RegistrationMessage
build_registration_message now uid label = record {
  event_time = now;
  label = label;
  sd_instance_uid = uid;
  sd_type_uid = mhd_sd_type_uid;
}
