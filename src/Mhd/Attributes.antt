-- ===== src/Mhd/Attributes.antt =====
-- parseRawEnvelope, lookupAttribute and the extract functions in
-- backend/mhd-preprocessor/src/helpers.go. A decoded object is a map; of the dynamic types that the
-- switches name, `json.Unmarshal` into an `interface{}` makes string, float64 and bool only.
pub mod Order
use rio_t_preprocessors.Base.{
  Bool, true, false, ◌&&◌, ◌||◌, String, string_eq, ◌==◌, if◌then◌else◌, Option, none, some, List,
  [], ◌∷◌, ◌*◌, ◌≡◌, refl,
}
use rio_t_preprocessors.Base.Int.{ℤ, pos, ◌+ℤ◌, ◌*ℤ◌}
use rio_t_preprocessors.Base.Maps.{Dict, lookup, insert, has}
use rio_t_preprocessors.Base.Text.{trim_space}
use rio_t_preprocessors.Base.Strconv.{atoi}
use rio_t_preprocessors.Base.Time.{Time, second, millisecond}
use rio_t_preprocessors.Commons.Json.{Value, Members, equal_fold}

-- `strconv.FormatInt(_, 10)`, the conversion `int64(_)`, `strconv.ParseFloat(_, 64)`,
-- `fmt.Sprintf("%v", _)` of an array or an object, and `time.Parse` in UTC with the two layouts.
pub record Conversions (F : Type 0) : Type 0 where
  pub format_int : ℤ → String
  pub to_int64 : F → ℤ
  pub parse_float : String → Option F
  pub print_composite : Value F → String
  pub parse_rfc3339_nano : String → Option Time
  pub parse_rfc3339 : String → Option Time

abbrev pub Attributes : Type 0 → Type 0
Attributes F = Dict String (Value F)

pub record RawEnvelope (F : Type 0) : Type 0 where
  pub attributes : Attributes F
  pub filter : Attributes F
  pub error : Option (Value F)
  pub geometry : Attributes F

-- What was found first.
abbrev pub or_else {ℓ} : {A : Type ℓ} → Option A → Option A → Option A
or_else none later = later
or_else (some value) later = some value

module _ {F : Type 0} where
  -- An object as a `map[string]interface{}`: of two members with one key the later one stays.
  unfoldable pub decode_members : Members F → Attributes F → Attributes F
  decode_members Members.no_members attributes = attributes
  decode_members (Members.member_and key value rest) attributes =
      decode_members rest (insert key value attributes)

  -- `value.(map[string]interface{})`, where nil has no entries.
  unfoldable pub as_map : Option (Value F) → Attributes F
  unfolding decode_members
  as_map (some (Value.object members)) = decode_members members []
  as_map _ = []

  -- `len(attributes) == 0`
  unfoldable pub is_empty : Attributes F → Bool
  is_empty [] = true
  is_empty (entry ∷ rest) = false

  unfoldable pub envelope_of : Attributes F → RawEnvelope F
  unfolding as_map is_empty
  envelope_of payload =
      let attributes = as_map (lookup "attributes" payload) in
      let geometry = as_map (lookup "geometry" payload) in
      record {
        attributes = if is_empty attributes && is_empty geometry then payload else attributes;
        filter = as_map (lookup "filter" payload);
        error = lookup "error" payload;
        geometry = geometry;
      }

  -- `message` is the tree of a text, or `none` for one that is no JSON. `null` decodes into a map
  -- as nil, any other value but an object is an error.
  unfoldable pub parse_raw_envelope : Option (Value F) → Option (RawEnvelope F)
  unfolding envelope_of decode_members
  parse_raw_envelope (some Value.null) = some (envelope_of [])
  parse_raw_envelope (some (Value.object members)) = some (envelope_of (decode_members members []))
  parse_raw_envelope _ = none

  -- The first loop of lookupAttribute.
  unfoldable pub exact_attribute : Attributes F → List String → Option (Value F)
  exact_attribute attributes [] = none
  exact_attribute attributes (key ∷ keys) =
      or_else (lookup key attributes) (exact_attribute attributes keys)

  unfoldable pub folded_entry : String → Attributes F → Option (Value F)
  folded_entry key [] = none
  folded_entry key ((candidate, value) ∷ rest) =
      let later = folded_entry key rest in if equal_fold candidate key then some value else later

  -- The second loop.
  unfoldable pub folded_attribute : Attributes F → List String → Option (Value F)
  unfolding folded_entry
  folded_attribute attributes [] = none
  folded_attribute attributes (key ∷ keys) =
      or_else (folded_entry key attributes) (folded_attribute attributes keys)

  -- The nil interface is `Value.null`, as a JSON `null` is.
  unfoldable pub or_nil : Option (Value F) → Value F
  or_nil none = Value.null
  or_nil (some value) = value

  unfoldable pub lookup_attribute : Attributes F → List String → Value F
  unfolding exact_attribute folded_attribute or_nil
  lookup_attribute attributes keys =
      or_nil (or_else (exact_attribute attributes keys) (folded_attribute attributes keys))

-- `strconv.ParseBool`
unfoldable pub parse_bool : String → Option Bool
parse_bool text =
    if text == "1"
      || text == "t"
      || text == "T"
      || text == "TRUE"
      || text == "true"
      || text == "True"
    then some true
    else if text == "0"
        || text == "f"
        || text == "F"
        || text == "FALSE"
        || text == "false"
        || text == "False"
    then some false
    else none

unfoldable pub format_bool : Bool → String
format_bool b = if b then "true" else "false"

-- `time.UnixMilli(_)`: 1970 begins 62135596800 seconds after the zero time.
unfoldable pub unix_milli : ℤ → Time
unix_milli value = pos (62135596800 * second) +ℤ value *ℤ pos millisecond

abbrev pub map_option {ℓ κ} : {A : Type ℓ} {B : Type κ} → (A → B) → Option A → Option B
map_option f none = none
map_option f (some a) = some (f a)

module _ {F : Type 0} where
  unfoldable pub extract_bool : Value F → Option Bool
  unfolding parse_bool
  extract_bool (Value.flag b) = some b
  extract_bool (Value.text s) = parse_bool (trim_space s)
  extract_bool _ = none

module _ {F : Type 0} (conv : Conversions F) where
  -- `fmt.Sprintf("%v", nil)` is "<nil>".
  unfoldable pub extract_string : Value F → String
  unfolding format_bool
  extract_string (Value.text s) = trim_space s
  extract_string (Value.number n) = conv.format_int (conv.to_int64 n)
  extract_string (Value.flag b) = format_bool b
  extract_string Value.null = "<nil>"
  extract_string (Value.array vs) = trim_space (conv.print_composite (Value.array vs))
  extract_string (Value.object ms) = trim_space (conv.print_composite (Value.object ms))

  unfoldable pub extract_float : Value F → Option F
  extract_float (Value.number n) = some n
  extract_float (Value.text s) = conv.parse_float (trim_space s)
  extract_float _ = none

  -- `strconv.ParseInt(_, 10, 64)` reads what `strconv.Atoi` reads.
  unfoldable pub extract_unix_millis : Value F → Option Time
  unfolding unix_milli
  extract_unix_millis (Value.number n) = some (unix_milli (conv.to_int64 n))
  extract_unix_millis (Value.text s) = map_option unix_milli (atoi (trim_space s))
  extract_unix_millis _ = none

  unfoldable pub written_timestamp : String → Option Time
  written_timestamp trimmed =
      if trimmed == ""
      then none
      else or_else (conv.parse_rfc3339_nano trimmed) (conv.parse_rfc3339 trimmed)

  -- The switch after extractUnixMillis has failed.
  unfoldable pub textual_timestamp : Value F → Option Time
  unfolding written_timestamp
  textual_timestamp (Value.text s) = written_timestamp (trim_space s)
  textual_timestamp _ = none

  unfoldable pub extract_timestamp : Value F → Option Time
  unfolding extract_unix_millis textual_timestamp
  extract_timestamp value = or_else (extract_unix_millis value) (textual_timestamp value)
