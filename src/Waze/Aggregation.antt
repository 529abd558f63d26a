-- ===== src/Waze/Aggregation.antt =====
-- backend/wazejam-preprocessor/src/aggregation.go: the aggregates of a jam, one for each of its
-- segments, and how two aggregates of the same segment become one. `json.Marshal` of the jams and
-- the hash of `hash/fnv` are parameters.
use rio_t_preprocessors.Base.{
  ℕ, ◌+◌, ◌*◌, ◌/◌, ◌%◌, Bool, false, not, ◌&&◌, ◌||◌, String, string_eq, if◌then◌else◌, Option,
  none, some, List, [], ◌∷◌, ◌++◌, map,
}
use rio_t_preprocessors.Base.Int.{pos, ltb_ℤ, ◌-ℤ◌}
use rio_t_preprocessors.Base.Maps.{Dict, insert}
use rio_t_preprocessors.Base.Time.{Time, before, millisecond}
use rio_t_preprocessors.Base.Float.{Float64}
use rio_t_preprocessors.Commons.Messages.{Param, text, number}
use rio_t_preprocessors.Commons.Json.{Members}
use rio_t_preprocessors.Waze.Model.{SegmentReference, DeviceAggregate, startup_jitter}
use rio_t_preprocessors.Waze.Parsing.{
  Conversions, member, build_instance_uid, build_instance_label, normalize_display_tag,
  extract_float, extract_event_time, safe_int64_string, reduce_raw_jam, parse_segments,
  sort_raw_jams,
}

abbrev pub build_direction_label : Bool → String
build_direction_label is_forward = if is_forward then "Forward" else "Reverse"

-- The loop of `tagsToParams`; the order of the keys does not change a map.
unfoldable pub assign_tags :
    {F : Type 0} → Dict String String → Dict String (Param F) → Dict String (Param F)
assign_tags [] params = params
assign_tags ((key, value) ∷ rest) params = assign_tags rest (insert key (text value) params)

unfoldable pub tags_to_params : {F : Type 0} → Dict String String → Dict String (Param F)
unfolding assign_tags
tags_to_params tags = assign_tags tags []

-- The loop of `cloneTags`.
unfoldable pub assign_all : Dict String String → Dict String String → Dict String String
assign_all [] acc = acc
assign_all ((key, value) ∷ rest) acc = assign_all rest (insert key value acc)

unfoldable pub clone_tags : Dict String String → Dict String String
unfolding assign_all
clone_tags tags = assign_all tags []

-- `hash` is the 32-bit FNV-1a hash of the UID.
unfoldable pub build_startup_zero_delay_event_time : (String → ℕ) → String → Time → Time
build_startup_zero_delay_event_time hash uid active_event_time =
    let max_jitter_millis = startup_jitter / millisecond in
    active_event_time -ℤ pos ((hash uid % max_jitter_millis + 1) * millisecond)

unfoldable pub should_publish_startup_zero_delay : Time → Time → Bool
should_publish_startup_zero_delay preprocessor_started_at event_time =
    not (before event_time preprocessor_started_at)

-- `if err == nil { params["rawJams"] = string(rawJamsJSON) }`
abbrev pub set_raw_jams :
    {F : Type 0} → Option String → Dict String (Param F) → Dict String (Param F)
set_raw_jams none params = params
set_raw_jams (some raw) params = insert "rawJams" (text raw) params

module _ (fl : Float64) (minus_one : fl.F) (conv : Conversions fl.F) where
  open fl use {F, f_zero, lt, eq, add}

  -- A delay of -1 marks a blocked road, and counts as greater than every number.
  unfoldable pub is_greater_delay : F → F → Bool
  is_greater_delay left right =
      if eq left minus_one
      then not (eq right minus_one)
      else if eq right minus_one
      then false
      else lt right left

  unfoldable pub merge_aggregate : DeviceAggregate F → DeviceAggregate F → DeviceAggregate F
  merge_aggregate target addition =
      let latest = ltb_ℤ target.pub_millis_latest addition.pub_millis_latest in
      record target {
        raw_jams = sort_raw_jams conv (target.raw_jams ++ addition.raw_jams);
        jam_count = target.jam_count + addition.jam_count;
        delay =
            if is_greater_delay addition.delay target.delay then addition.delay else target.delay;
        length = add target.length addition.length;
        level = if lt target.level addition.level then addition.level else target.level;
        speed =
            if eq target.speed f_zero || lt f_zero addition.speed && lt addition.speed target.speed
            then addition.speed
            else target.speed;
        speed_kph =
            if eq target.speed_kph f_zero
              || lt f_zero addition.speed_kph && lt addition.speed_kph target.speed_kph
            then addition.speed_kph
            else target.speed_kph;
        pub_millis_latest = if latest then addition.pub_millis_latest else target.pub_millis_latest;
        event_time = if latest then addition.event_time else target.event_time;
      }

  -- One round of the loop in `buildAggregatesFromJam`.
  unfoldable pub aggregate_of : Time → Members F → SegmentReference → DeviceAggregate F
  aggregate_of now jam segment =
      let country = normalize_display_tag conv (member "country" jam) in
      let city = normalize_display_tag conv (member "city" jam) in
      let street = normalize_display_tag conv (member "street" jam) in
      let road_type = normalize_display_tag conv (member "roadType" jam) in
      let segment_id = conv.format_int segment.id in
      record {
        uid = build_instance_uid conv segment.id segment.is_forward;
        label =
            build_instance_label city street segment_id (build_direction_label segment.is_forward);
        event_time = (extract_event_time conv now jam).0;
        tags =
            ("country", country)
            ∷ ("city", city)
            ∷ ("street", street)
            ∷ ("roadType", road_type)
            ∷ ("segmentId", segment_id)
            ∷ ("fromNode", safe_int64_string conv segment.from_node)
            ∷ ("toNode", safe_int64_string conv segment.to_node)
            ∷ ("isForward", if segment.is_forward then "true" else "false")
            ∷ [];
        raw_jams = reduce_raw_jam conv jam ∷ [];
        jam_count = 1;
        delay = extract_float conv f_zero (member "delay" jam);
        length = extract_float conv f_zero (member "length" jam);
        level = extract_float conv f_zero (member "level" jam);
        speed = extract_float conv f_zero (member "speed" jam);
        speed_kph = extract_float conv f_zero (member "speedKMH" jam);
        pub_millis_latest = (extract_event_time conv now jam).1;
      }

  unfoldable pub build_aggregates_from_jam : Time → Members F → List (DeviceAggregate F)
  build_aggregates_from_jam now jam =
      map (aggregate_of now jam) (parse_segments conv (member "segments" jam))

  -- `float64(…)` of a count, and `json.Marshal` of the jams, which gives a text or fails.
  module _ (of_count : ℕ → F) (marshal : List (Members F) → Option String) where
    unfoldable pub build_active_params : DeviceAggregate F → Dict String (Param F)
    build_active_params aggregate = set_raw_jams (marshal (sort_raw_jams conv aggregate.raw_jams)) (
        insert "jamCount" (number (of_count aggregate.jam_count)) (
          insert "speedKPH" (number aggregate.speed_kph) (
            insert "speed" (number aggregate.speed) (
              insert "level" (number aggregate.level) (
                insert "length" (number aggregate.length)
                  (insert "delay" (number aggregate.delay) (tags_to_params aggregate.tags)))))))

  unfoldable pub build_zero_delay_params : Dict String String → Dict String (Param F)
  build_zero_delay_params tags =
      insert "rawJams" (text "[]")
        (insert "jamCount" (number f_zero) (insert "delay" (number f_zero) (tags_to_params tags)))
