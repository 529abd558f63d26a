-- ===== src/Mhd/Live.antt =====
-- buildLiveRecord, processWebSocketMessage, processLiveRecord and the two bounded logs in
-- backend/mhd-preprocessor/src/ws_source.go. `F` is the float64 of Base.Float.
pub mod Stream
pub mod Logged
pub mod Ignored
mod Tests
use rio_t_preprocessors.Base.{
  ℕ, ◌+◌, Bool, true, false, not, ◌&&◌, ◌||◌, String, string_eq, ◌==◌, leb, if◌then◌else◌, Option,
  none, some, List, [], ◌∷◌, ◌++◌, length,
}
use rio_t_preprocessors.Base.Maps.{Dict, keys, insert, has}
use rio_t_preprocessors.Base.Text.{◌⧺◌, trim_space}
use rio_t_preprocessors.Base.Time.{Time, zero_time}
use rio_t_preprocessors.Base.Float.{Float64}
use rio_t_preprocessors.Commons.Json.{Value}
use rio_t_preprocessors.Commons.Messages.{StateMessage, RegistrationMessage}
use rio_t_preprocessors.Mhd.Model.{LiveRecord, TripMatch, AppConfig}
use rio_t_preprocessors.Mhd.Store.{GtfsStore}
use rio_t_preprocessors.Mhd.Matching.{match_live_record}
use rio_t_preprocessors.Mhd.Publish.{Formats}
use rio_t_preprocessors.Mhd.Runtime.{Runtime, Oracle, process_matched_record}
use rio_t_preprocessors.Mhd.Attributes.{
  Conversions, Attributes, RawEnvelope, parse_raw_envelope, lookup_attribute, extract_string,
  extract_float, extract_bool, extract_timestamp, format_bool,
}

abbrev pub option_or {ℓ} : {A : Type ℓ} → A → Option A → A
option_or old none = old
option_or old (some new) = new

abbrev pub is_found {ℓ} : {A : Type ℓ} → Option A → Bool
is_found none = false
is_found (some a) = true

-- What a line of the log is about.
pub data LogLine : Type 0 where
  unmatched_record : String → LogLine
  sample_payload : ℕ → String → LogLine

-- The package's variables for the logs, and the lines that the two functions have written.
pub record LogState : Type 0 where
  pub lines : List LogLine
  pub unmatched_records_logged : Dict String (Unit {0})
  pub live_payloads_logged : ℕ

abbrev pub unmatched_records_log_limit : ℕ
unmatched_records_log_limit = 10

abbrev pub live_payload_log_limit : ℕ
live_payload_log_limit = 5

abbrev pub no_logs : LogState
no_logs = record { lines = []; unmatched_records_logged = []; live_payloads_logged = 0 }

unfoldable pub log_sample_live_payload : String → LogState → LogState
log_sample_live_payload message logs =
    if leb live_payload_log_limit logs.live_payloads_logged then logs else record logs {
      live_payloads_logged = logs.live_payloads_logged + 1;
      lines = logs.lines ++ (sample_payload (logs.live_payloads_logged + 1) message ∷ []);
    }

unfoldable pub unmatched_key : String → String → String
unfolding ◌⧺◌
unmatched_key line_id live_route_id =
    let key = line_id ⧺ "/" ⧺ live_route_id in if key == "/" then "missing-line-route" else key

-- `logUnmatchedRecord`, on the key of the record.
unfoldable pub log_unmatched_key : String → LogState → LogState
unfolding insert
log_unmatched_key key logs =
    if leb unmatched_records_log_limit (length logs.unmatched_records_logged)
    then logs
    else if has key logs.unmatched_records_logged
    then logs
    else record logs {
      unmatched_records_logged = insert key tt logs.unmatched_records_logged;
      lines = logs.lines ++ (unmatched_record key ∷ []);
    }

-- `if !record.IsInactive { ... }`: a state other than none and "0" is inactive.
unfoldable pub inactive_by_state : Bool → String → Bool
unfolding trim_space
inactive_by_state inactive state =
    let trimmed = trim_space state in inactive || (not (trimmed == "") && not (trimmed == "0"))

module _ {F : Type 0} (conv : Conversions F) where
  -- The text of a low floor, which "IsBarrierLess" gives where "lf" is the empty text.
  unfoldable pub low_floor_of : Attributes F → String
  low_floor_of attributes =
      let written = extract_string conv (lookup_attribute attributes ("lf" ∷ [])) in
      if written == ""
      then elim (extract_bool (lookup_attribute attributes ("IsBarrierLess" ∷ []))) [
        | none ↦ ""
        | some value ↦ format_bool value
      ]
      else written

  -- A coordinate: the geometry's goes before that of the attributes.
  unfoldable pub coordinate : F → Attributes F → List String → Attributes F → String → F
  coordinate zero attributes names geometry axis =
      option_or (option_or zero (extract_float conv (lookup_attribute attributes names)))
        (extract_float conv (lookup_attribute geometry (axis ∷ [])))

  unfoldable pub inactive_of : Attributes F → Bool
  inactive_of attributes =
      inactive_by_state
        (option_or false (extract_bool (lookup_attribute attributes ("isinactive" ∷ []))))
        (extract_string conv (lookup_attribute attributes ("State" ∷ [])))

  -- `marshaled` is the text of the attributes and the geometry, where `json.Marshal` gives one.
  unfoldable pub build_live_record_from_payload :
      F → Time → Option String → String → Attributes F → Attributes F → LiveRecord F
  build_live_record_from_payload zero now marshaled raw attributes geometry =
      let read =
        (λ (names : List String). extract_string conv (lookup_attribute attributes names)) in
      let departure = extract_timestamp conv (lookup_attribute attributes ("DepartureDT" ∷ [])) in
      record {
        raw_message = option_or raw marshaled;
        source_timestamp = option_or now (
            extract_timestamp conv
              (lookup_attribute attributes ("lastupdate" ∷ "timeupdated" ∷ [])));
        geometry_lat = coordinate zero attributes ("lat" ∷ "Latitude" ∷ []) geometry "y";
        geometry_lng = coordinate zero attributes ("lng" ∷ "Longitude" ∷ []) geometry "x";
        object_id = read ("objectid" ∷ []);
        global_id = read ("globalid" ∷ []);
        vehicle_runtime_id = read ("id" ∷ "CarNum" ∷ []);
        vehicle_type = read ("vtype" ∷ []);
        line_type = read ("ltype" ∷ []);
        line_id = read ("lineid" ∷ "LineID" ∷ []);
        line_name = read ("linename" ∷ "LineName" ∷ []);
        live_route_id = read ("routeid" ∷ "RouteID" ∷ []);
        course = read ("course" ∷ []);
        low_floor = low_floor_of attributes;
        delay =
            option_or zero
              (extract_float conv (lookup_attribute attributes ("delay" ∷ "DelayInMins" ∷ [])));
        bearing =
            option_or zero
              (extract_float conv (lookup_attribute attributes ("bearing" ∷ "Azimut" ∷ [])));
        last_stop_id = read ("laststopid" ∷ "LastStopID" ∷ []);
        last_post_id = read ("LastPostID" ∷ []);
        final_stop_id = read ("finalstopid" ∷ "FinalStopID" ∷ []);
        final_stop_name = read ("FinalStopName" ∷ []);
        service_id = read ("ServiceID" ∷ []);
        observed_departure_time = option_or zero_time departure;
        observed_departure_valid = is_found departure;
        oc_final_stop_id = read ("OCFinalStopID" ∷ []);
        oc_final_stop_name = read ("OCFinalStopName" ∷ []);
        oc_line_id = read ("OCLineID" ∷ []);
        oc_line_name = read ("OCLineName" ∷ []);
        oc_route_id = read ("OCRouteID" ∷ []);
        state = read ("State" ∷ []);
        tm_flag_text = read ("TMFlagText" ∷ []);
        is_inactive = inactive_of attributes;
      }

-- What the consumer of live messages keeps, and what it has published.
pub record Session (F : Type 0) : Type 0 where
  pub runtime : Runtime
  pub logs : LogState
  pub registrations : List RegistrationMessage
  pub states : List (StateMessage F)

-- What one message comes with: its text, the tree that its text stands for, the text of its record
-- and the answers of the clock and of `rand`.
pub record Message (F : Type 0) : Type 0 where
  pub raw : String
  pub tree : Option (Value F)
  pub marshaled : Option String
  pub received_at : Time
  pub oracle : Oracle

-- `local_day` gives the year and the day of a time at the location of the timetable.
module _ (fl : Float64) (formats : Formats) (local_day : Time → ℕ × ℕ) (config : AppConfig)
    (conv : Conversions fl.F) (store : GtfsStore fl.F) where
  open fl use {F}

  unfoldable pub live_match : LiveRecord F → Runtime → Option (TripMatch F)
  live_match live rt =
      match_live_record local_day rt.instance_states config.matching_window live store

  -- The two ends of processLiveRecord.
  unfoldable pub process_match :
      Oracle → LiveRecord F → Option (TripMatch F) → Session F → Session F
  process_match o live none s = record s {
    logs = log_unmatched_key (unmatched_key live.line_id live.live_route_id) s.logs;
  }
  process_match o live (some m) s =
      let (runtime, registrations, states) =
        process_matched_record fl formats config o m live s.runtime in
      record s {
        runtime = runtime;
        registrations = s.registrations ++ registrations;
        states = s.states ++ states;
      }

  unfoldable pub process_live_record : Oracle → LiveRecord F → Session F → Session F
  process_live_record o live s = process_match o live (live_match live s.runtime) s

  unfoldable pub build_live_record : Message F → RawEnvelope F → LiveRecord F
  build_live_record message envelope =
      build_live_record_from_payload conv fl.f_zero message.received_at message.marshaled
        message.raw envelope.attributes envelope.geometry

  unfoldable pub process_envelope : Message F → Option (RawEnvelope F) → Session F → Session F
  process_envelope message none s = s
  process_envelope message (some envelope) s =
      process_live_record message.oracle (build_live_record message envelope)
        (record s { logs = log_sample_live_payload message.raw s.logs })

  unfoldable pub process_web_socket_message : Message F → Session F → Session F
  process_web_socket_message message s =
      process_envelope message (parse_raw_envelope message.tree) s
