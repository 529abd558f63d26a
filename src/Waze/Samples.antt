-- ===== src/Waze/Samples.antt =====
-- Jams on one segment, and conversions that are enough for them, for the examples.
use rio_t_preprocessors.Base.{
  ℕ, true, nat_eq, ◌==◌, if◌then◌else◌, String, Option, none, some, List, [], ◌∷◌,
}
use rio_t_preprocessors.Base.Int.{pos, pos_part}
use rio_t_preprocessors.Base.Float.{whole}
use rio_t_preprocessors.Commons.Json.{Value, Values, Members}
use rio_t_preprocessors.Waze.Model.{SegmentReference}
use rio_t_preprocessors.Waze.Parsing.{Conversions}
use rio_t_preprocessors.Waze.Lifecycle.{Environment}

abbrev pub conv : Conversions ℕ
conv = record {
  format_value = λ v. "x";
  format_int = λ n. if pos_part n == 1 then "1" else "2";
  format_padded = λ n. "0";
  parse_float = λ s. none;
  parse_int = λ s. none;
  parse_bool = λ s. none;
  to_int64 = λ x. pos x;
}

abbrev pub marshal_jams : List (Members ℕ) → Option String
marshal_jams [] = some "[]"
marshal_jams (j ∷ js) = some "[{}]"

abbrev pub env : Environment whole
env = record {
  minus_one = 999;
  conv = conv;
  of_count = λ n. n;
  marshal = marshal_jams;
  hash = λ s. 17;
}

abbrev pub one_segment : Members ℕ
one_segment = Members.member_and "ID" (Value.number 1) (
    Members.member_and "fromNode" (Value.number 5) (
      Members.member_and "toNode" (Value.number 6)
        (Members.member_and "isForward" (Value.flag true) Members.no_members)))

abbrev pub jam_at : ℕ → Members ℕ
jam_at millis = Members.member_and "pubMillis" (Value.number millis) (
    Members.member_and "segments"
      (Value.array (Values.value_and (Value.object one_segment) Values.no_values))
      Members.no_members)

abbrev pub segment : SegmentReference
segment = record { id = pos 1; from_node = pos 5; to_node = pos 6; is_forward = true }
