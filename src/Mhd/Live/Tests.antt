-- ===== src/Mhd/Live/Tests.antt =====
-- backend/mhd-preprocessor/src/ws_source.go on one message of a vehicle of the example's trip.
use rio_t_preprocessors.Base.{
  ℕ, ◌*◌, ◌-◌, false, true, String, string_eq, none, some, [], ◌∷◌, ◌≡◌, refl, arith, ◌==◌,
  if◌then◌else◌,
}
use rio_t_preprocessors.Base.Int.{pos, negsuc, ◌-ℤ◌, ◌+ℤ◌}
use rio_t_preprocessors.Base.Maps.{lookup, insert}
use rio_t_preprocessors.Base.Time.{second, minute, abs_duration, time_sub, wrap64}
use rio_t_preprocessors.Base.Text.{trim_space}
use rio_t_preprocessors.Base.Strconv.{atoi}
use rio_t_preprocessors.Mhd.Matching.{
  match_live_record, matching_bonus_minutes, matching_bonus, score_of, scan_candidates,
  scan_occurrences, consider, in_window, same_service_date, contains_stop_id,
  active_instance_matches,
}
use rio_t_preprocessors.Mhd.Store.{GtfsStore, definitions_for}
use rio_t_preprocessors.Base.Float.{whole}
use rio_t_preprocessors.Commons.Json.{Value, Members, equal_fold}
use rio_t_preprocessors.Mhd.Model.{LiveRecord, TripDefinition, TripMatch}
use rio_t_preprocessors.Mhd.Samples.{
  store, tram, late, formats, config, oracle, one_running, one_day,
}
use rio_t_preprocessors.Mhd.Attributes.{
  Conversions, Attributes, RawEnvelope, parse_raw_envelope, lookup_attribute, extract_string,
  extract_float, extract_bool, extract_timestamp, unix_milli,
}
use rio_t_preprocessors.Mhd.Live.{
  Session, Message, no_logs, process_web_socket_message, build_live_record,
  build_live_record_from_payload, low_floor_of, coordinate, inactive_of, inactive_by_state,
  live_match,
}
use rio_t_preprocessors.Mhd.Live.Stream.{
  Connection, refused, opened, consume_messages, consume_any_web_socket, all_messages, last_error,
  consume_any_web_socket-messages,
}
use rio_t_preprocessors.Mhd.Live.Logged.{
  IsBounded, record_keys, payload_numbers, up_to, consume_messages-IsBounded,
}
use rio_t_preprocessors.Mhd.Live.Ignored.{
  matched, SameOutcome, activity_of, consume_messages-unmatched, missing_state-activity,
}

abbrev conv : Conversions ℕ
conv = record {
  format_int = λ n. "1";
  to_int64 = λ n. pos n;
  parse_float = λ text. none;
  print_composite = λ v. "";
  parse_rfc3339_nano = λ text. some (pos (1500 * second));
  parse_rfc3339 = λ text. none;
}

abbrev members : Members ℕ
members = Members.member_and "lineid" (Value.text "1") (
    Members.member_and "routeid" (Value.text "7")
      (Members.member_and "lastupdate" (Value.text "now") Members.no_members))

abbrev attributes : Attributes ℕ
attributes =
    ("lineid", Value.text "1") ∷ ("routeid", Value.text "7") ∷ ("lastupdate", Value.text "now") ∷ []

abbrev envelope : RawEnvelope ℕ
envelope = record { attributes = attributes; filter = []; error = none; geometry = [] }

abbrev message : Message ℕ
message = record {
  raw = "{}";
  tree = some (Value.object members);
  marshaled = none;
  received_at = pos (1500 * second);
  oracle = oracle;
}

abbrev session : Session ℕ
session = record { runtime = one_running; logs = no_logs; registrations = []; states = [] }

parsed : parse_raw_envelope message.tree ≡ some envelope
unfolding parse_raw_envelope lookup insert
parsed = refl

stateless : lookup_attribute attributes ("State" ∷ []) ≡ Value.null
unfolding lookup_attribute lookup equal_fold
stateless = refl

-- What is read: each attribute that is missing as a text of its own.
abbrev live : LiveRecord ℕ
live = record {
  raw_message = "{}";
  source_timestamp = pos (1500 * second);
  geometry_lat = 0;
  geometry_lng = 0;
  object_id = "<nil>";
  global_id = "<nil>";
  vehicle_runtime_id = "<nil>";
  vehicle_type = "<nil>";
  line_type = "<nil>";
  line_id = "1";
  line_name = "<nil>";
  live_route_id = "7";
  course = "<nil>";
  low_floor = "<nil>";
  delay = 0;
  bearing = 0;
  last_stop_id = "<nil>";
  last_post_id = "<nil>";
  final_stop_id = "<nil>";
  final_stop_name = "<nil>";
  service_id = "<nil>";
  observed_departure_time = pos 0;
  observed_departure_valid = false;
  oc_final_stop_id = "<nil>";
  oc_final_stop_name = "<nil>";
  oc_line_id = "<nil>";
  oc_line_name = "<nil>";
  oc_route_id = "<nil>";
  state = "<nil>";
  tm_flag_text = "<nil>";
  is_inactive = true;
}

abbrev one_ride : TripDefinition ℕ
one_ride = record tram { occurrences = late ∷ []; stop_ids = []; stop_metadata = [] }

abbrev one_ride_match : TripMatch ℕ
one_ride_match = record { definition = one_ride; occurrence = late; score = pos 0 }

abbrev one_ride_store : GtfsStore ℕ
one_ride_store = record store { line_route_index = ("1/7", one_ride ∷ []) ∷ [] }

live_read :
    build_live_record whole formats one_day config conv one_ride_store message envelope ≡ live
unfolding build_live_record build_live_record_from_payload extract_string extract_float extract_bool
    extract_timestamp lookup_attribute lookup equal_fold low_floor_of coordinate inactive_of
    inactive_by_state trim_space atoi unix_milli
live_read = refl

bonus : matching_bonus_minutes one_day one_running.instance_states one_ride late live ≡ 30
unfolding matching_bonus_minutes same_service_date contains_stop_id active_instance_matches lookup
bonus = refl

distance : abs_duration (time_sub late.scheduled_start live.source_timestamp) ≡ pos (100 * second)
unfolding abs_duration time_sub ◌-ℤ◌ wrap64
distance = refl

short_of : wrap64 (pos (100 * second) -ℤ pos (30 * minute)) ≡ negsuc (1700 * second - 1)
unfolding wrap64 ◌-ℤ◌
short_of = refl

score : score_of one_day one_running.instance_states one_ride late live ≡ pos 0
unfolding score_of matching_bonus
score = rw (bonus, distance, short_of) refl

candidates : definitions_for one_ride_store "1" "7" ≡ one_ride ∷ []
unfolding definitions_for lookup
candidates = refl

found :
    matched whole formats one_day config conv one_ride_store message one_running (some envelope)
    ≡ some one_ride_match
unfolding live_match match_live_record scan_candidates scan_occurrences consider in_window ◌-ℤ◌ ◌+ℤ◌
found = rw (live_read, candidates, score) refl

missing_state-activity_example :
    activity_of (
      lookup "MHD_TRIP_1"
        (process_web_socket_message whole formats one_day config conv one_ride_store message
          session).runtime.instance_states)
    ≡ some false
missing_state-activity_example =
    missing_state-activity whole formats one_day config conv one_ride_store message envelope
      one_ride_match session parsed stateless found

-- A text that is no JSON.
abbrev broken : Message ℕ
broken = record message { tree = none }

consume_messages-unmatched_example :
    SameOutcome whole formats one_day config conv store
      (consume_messages whole formats one_day config conv store (broken ∷ broken ∷ []) session)
      session
unfolding parse_raw_envelope
consume_messages-unmatched_example =
    consume_messages-unmatched whole formats one_day config conv store (broken ∷ broken ∷ [])
      session (refl, (refl, tt))

consume_messages-IsBounded_example :
    IsBounded
      (consume_messages whole formats one_day config conv store
        (message ∷ message ∷ [])
        session).logs
unfolding record_keys payload_numbers up_to
consume_messages-IsBounded_example =
    consume_messages-IsBounded whole formats one_day config conv store (message ∷ message ∷ [])
      session (tt, omega arith, omega arith, refl, refl)

abbrev connect : String → Connection ℕ
connect url = if url == "a" then opened (message ∷ []) "closed" true else refused "no route"

consume_any_web_socket-messages_example :
    consume_any_web_socket whole formats one_day config conv store connect ("a" ∷ "b" ∷ []) session
    ≡ (
      consume_messages whole formats one_day config conv store
          (all_messages connect ("a" ∷ "b" ∷ []))
          session,
      last_error connect ("a" ∷ "b" ∷ []) "no configured websocket endpoints",
    )
consume_any_web_socket-messages_example =
    consume_any_web_socket-messages whole formats one_day config conv store connect ("a" ∷ "b" ∷ [])
      session
