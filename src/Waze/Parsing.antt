-- ===== src/Waze/Parsing.antt =====
-- backend/wazejam-preprocessor/src/parsing.go: from the feed's values to segments and texts. The
-- conversions of `strconv` and `fmt` between numbers and texts are parameters. A `String` of the
-- model is valid UTF-8, as `json.Unmarshal` leaves every text.
use Prim.Native.Char.{code}
use Prim.Native.String.{compare}
use text.Mathlib.Text.{is_lt}
use rio_t_preprocessors.Base.{
  ℕ, Bool, not, ◌&&◌, ◌||◌, String, string_eq, bool_eq, nat_eq, ◌==◌, leb, ◌+◌, ◌*◌, ◌/◌,
  if◌then◌else◌, Option, none, some, List, [], ◌∷◌,
}
use rio_t_preprocessors.Base.Int.{eq_ℤ, ℤ, pos, negsuc, ltb_ℤ, ◌+ℤ◌, ◌-ℤ◌}
use rio_t_preprocessors.Base.Sorting.{sort_stable, insert_sorted}
use rio_t_preprocessors.Base.Text.{is_space, trim_space, ◌⧺◌}
use rio_t_preprocessors.Base.Time.{Time, second, millisecond}
use rio_t_preprocessors.Commons.Json.{Value, Values, Members}
use rio_t_preprocessors.Waze.Model.{LineCoordinate, SegmentReference, unknown_tag_value}

pub record Conversions (F : Type 0) : Type 0 where
  -- `fmt.Sprintf("%v", …)`, `strconv.FormatInt(…, 10)`, `fmt.Sprintf("%020d", …)`
  pub format_value : Value F → String
  pub format_int : ℤ → String
  pub format_padded : ℤ → String
  -- `strconv.ParseFloat`, `ParseInt`, `ParseBool`, and `int64(…)` of a float
  pub parse_float : String → Option F
  pub parse_int : String → Option ℤ
  pub parse_bool : String → Option Bool
  pub to_int64 : F → ℤ

-- `jam[key]`; a missing key reads as `nil`.
unfoldable pub member : {F : Type 0} → String → Members F → Value F
member key Members.no_members = Value.null
member key (Members.member_and name value rest) =
    let later = member key rest in if name == key then value else later

-- `unicode.IsControl`
unfoldable pub is_control : ℕ → Bool
is_control c = leb c 31 || (leb 127 c && leb c 159)

-- The loop of `sanitizeText`.
unfoldable pub drop_controls : String → String
unfolding is_control is_space
drop_controls String.[] = ""
drop_controls (String.◌∷◌ c s) =
    let rest = drop_controls s in
    if is_control (code c) && not (is_space (code c)) then rest else String.◌∷◌ c rest

unfoldable pub sanitize_text : String → String
unfolding drop_controls trim_space
sanitize_text raw = trim_space (drop_controls raw)

unfoldable pub friendly_label : String → String
unfolding trim_space
friendly_label value =
    let trimmed = trim_space value in
    if trimmed == "" || trimmed == unknown_tag_value then "Unknown" else trimmed

unfoldable pub build_instance_label : String → String → String → String → String
unfolding friendly_label ◌⧺◌
build_instance_label city street segment_id direction_label =
    friendly_label city
    ⧺ ", "
    ⧺ friendly_label street
    ⧺ ": "
    ⧺ friendly_label segment_id
    ⧺ " "
    ⧺ friendly_label direction_label

-- The Unix epoch, in seconds from the year 1.
abbrev pub unix_epoch : Time
unix_epoch = pos (62135596800 * second)

-- `time.UnixMilli(ms)` and `t.UnixMilli()`, which rounds down.
unfoldable pub of_unix_milli : ℤ → Time
unfolding ◌+ℤ◌
of_unix_milli (pos n) = unix_epoch +ℤ pos (n * millisecond)
of_unix_milli (negsuc n) = unix_epoch -ℤ pos ((n + 1) * millisecond)

unfoldable pub unix_milli : Time → ℤ
unix_milli t = elim (t -ℤ unix_epoch) [
  | pos n ↦ pos (n / millisecond)
  | negsuc n ↦ negsuc (n / millisecond)
]

-- A point with two numbers; one that lacks a number is left out.
unfoldable pub coordinate_of :
    {F : Type 0} → Option F → Option F → List (LineCoordinate F) → List (LineCoordinate F)
coordinate_of (some x) (some y) later = record { x = x; y = y } ∷ later
coordinate_of _ _ later = later

-- The comparison of the sort in `parseSegments`.
unfoldable pub segment_less : SegmentReference → SegmentReference → Bool
segment_less a b =
    if not (eq_ℤ a.id b.id)
    then ltb_ℤ a.id b.id
    else if not (a.is_forward == b.is_forward)
    then not a.is_forward && b.is_forward
    else if not (eq_ℤ a.from_node b.from_node)
    then ltb_ℤ a.from_node b.from_node
    else ltb_ℤ a.to_node b.to_node

module _ {F : Type 0} (conv : Conversions F) where
  unfoldable pub normalize_display_tag : Value F → String
  unfolding sanitize_text
  normalize_display_tag value =
      let raw = sanitize_text (trim_space (conv.format_value value)) in
      if raw == "" || raw == "<nil>" then unknown_tag_value else raw

  unfoldable pub build_instance_uid : ℤ → Bool → String
  unfolding ◌⧺◌
  build_instance_uid segment_id is_forward =
      "WAZE_JAM_" ⧺ conv.format_int segment_id ⧺ "_" ⧺ (if is_forward then "FWD" else "REV")

  unfoldable pub extract_maybe_float : Value F → Option F
  extract_maybe_float (Value.number x) = some x
  extract_maybe_float (Value.text s) = conv.parse_float (trim_space s)
  extract_maybe_float _ = none

  unfoldable pub extract_maybe_int64 : Value F → Option ℤ
  extract_maybe_int64 (Value.number x) = some (conv.to_int64 x)
  extract_maybe_int64 (Value.text s) = conv.parse_int (trim_space s)
  extract_maybe_int64 _ = none

  unfoldable pub extract_maybe_bool : Value F → Option Bool
  extract_maybe_bool (Value.flag b) = some b
  extract_maybe_bool (Value.text s) = conv.parse_bool (trim_space s)
  extract_maybe_bool _ = none

  -- `f_zero` is the number 0.
  unfoldable pub extract_float : F → Value F → F
  extract_float f_zero value = elim (extract_maybe_float value) [ none ↦ f_zero | some x ↦ x ]

  unfoldable pub safe_int64_string : ℤ → String
  safe_int64_string value = if eq_ℤ value (pos 0) then unknown_tag_value else conv.format_int value

  -- The loop of `parseLine`; what is not an object is left out.
  unfoldable pub collect_line : Values F → List (LineCoordinate F)
  collect_line Values.no_values = []
  collect_line (Values.value_and (Value.object fields) rest) =
      coordinate_of (extract_maybe_float (member "x" fields))
        (extract_maybe_float (member "y" fields)) (collect_line rest)
  collect_line (Values.value_and _ rest) = collect_line rest

  unfoldable pub parse_line : Value F → List (LineCoordinate F)
  parse_line (Value.array items) = collect_line items
  parse_line _ = []

  -- The four fields of a segment, if each has the type that it should have.
  unfoldable pub segment_of : Members F → Option SegmentReference
  segment_of fields = elim (extract_maybe_int64 (member "ID" fields)) [
    | none ↦ none
    | some id ↦ elim (extract_maybe_int64 (member "fromNode" fields)) [
      | none ↦ none
      | some from_node ↦ elim (extract_maybe_int64 (member "toNode" fields)) [
        | none ↦ none
        | some to_node ↦ elim (extract_maybe_bool (member "isForward" fields)) [
          | none ↦ none
          | some is_forward ↦ some (record {
            id = id;
            from_node = from_node;
            to_node = to_node;
            is_forward = is_forward;
          })
        ]
      ]
    ]
  ]

  -- The loop of `parseSegments`: what is not an object, or lacks a field, is left out.
  unfoldable pub collect_segments : Values F → List SegmentReference
  collect_segments Values.no_values = []
  collect_segments (Values.value_and (Value.object fields) rest) =
      let later = collect_segments rest in
      elim (segment_of fields) [ none ↦ later | some segment ↦ segment ∷ later ]
  collect_segments (Values.value_and _ rest) = collect_segments rest

  unfoldable pub parse_segments : Value F → List SegmentReference
  unfolding sort_stable insert_sorted segment_less
  parse_segments (Value.array items) = sort_stable segment_less (collect_segments items)
  parse_segments _ = []

  unfoldable pub reduce_raw_jam : Members F → Members F
  reduce_raw_jam Members.no_members = Members.no_members
  reduce_raw_jam (Members.member_and key value rest) =
      let reduced = reduce_raw_jam rest in
      if key == "country" || key == "city" || key == "street" || key == "roadType"
      then reduced
      else Members.member_and key value reduced

  -- `now` is the clock, which is read where the jam has no time of its own.
  unfoldable pub extract_event_time : Time → Members F → Time × ℤ
  unfolding unix_milli of_unix_milli
  extract_event_time now jam = elim (extract_maybe_int64 (member "pubMillis" jam)) [
    | none ↦ (now, unix_milli now)
    | some millis ↦
        if not (ltb_ℤ (pos 0) millis) then (now, unix_milli now) else (of_unix_milli millis, millis)
  ]

  unfoldable pub raw_jam_sort_key : Members F → String
  raw_jam_sort_key item =
      let millis : ℤ = elim (extract_maybe_int64 (member "pubMillis" item)) [
        | none ↦ pos 0
        | some n ↦ n
      ] in
      conv.format_padded millis
      ⧺ "|"
      ⧺ trim_space (conv.format_value (member "uuid" item))
      ⧺ "|"
      ⧺ trim_space (conv.format_value (member "blockingAlertUuid" item))

  unfoldable pub sort_raw_jams : List (Members F) → List (Members F)
  unfolding sort_stable
  sort_raw_jams items =
      sort_stable (λ a b. is_lt (compare (raw_jam_sort_key a) (raw_jam_sort_key b))) items
