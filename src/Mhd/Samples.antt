-- ===== src/Mhd/Samples.antt =====
-- A trip with three stops and two occurrences, and records of its vehicle, for the examples.
use rio_t_preprocessors.Base.{◌+◌, ◌-◌, ◌%◌, none, ℕ, ◌*◌, true, false, String, List, [], ◌∷◌, some}
use rio_t_preprocessors.Base.Int.{ℤ, pos, negsuc, pos_part}
use rio_t_preprocessors.Base.Time.{second, Time}
use rio_t_preprocessors.Mhd.Model.{
  LiveRecord, StopMetadata, TripDefinition, TripOccurrence, TripMatch, InstanceState, AppConfig,
}
use rio_t_preprocessors.Commons.Sets.{new_set}
use rio_t_preprocessors.Mhd.Calendar.{Location}
use rio_t_preprocessors.Mhd.Store.{GtfsStore}
use rio_t_preprocessors.Mhd.Publish.{Formats}
use rio_t_preprocessors.Mhd.Runtime.{Runtime, Oracle}

abbrev pub stop_at : String → ℕ → StopMetadata ℕ
stop_at id lat = record { id = id; name = "Stop"; lat = lat; lng = 1 }

abbrev pub three_stops : List (StopMetadata ℕ)
three_stops = stop_at "U10Z1" 10 ∷ stop_at "U20Z1" 20 ∷ stop_at "U30Z1" 30 ∷ []

abbrev pub early : TripOccurrence
early = record {
  trip_id = "7";
  service_id = "5";
  service_date = pos 0;
  scheduled_start = pos (1000 * second);
  scheduled_end = pos (2000 * second);
}

abbrev pub late : TripOccurrence
late = record {
  trip_id = "7";
  service_id = "5";
  service_date = pos 0;
  scheduled_start = pos (1400 * second);
  scheduled_end = pos (2400 * second);
}

abbrev pub tram : TripDefinition ℕ
tram = record {
  uid = "MHD_TRIP_1";
  label = "1";
  trip_id = "7";
  route_id = "L1";
  route_short_name = "1";
  direction_id = "0";
  trip_headsign = "";
  departure_time = "08:00:00";
  from_stop_id = "U10Z1";
  from_stop_name = "Stop";
  to_stop_id = "U30Z1";
  to_stop_name = "Stop";
  service_id = "5";
  service_days = [];
  stop_ids = "U10Z1" ∷ "U20Z1" ∷ "U30Z1" ∷ [];
  stop_metadata = three_stops;
  line_id = "1";
  live_route_id = "7";
  occurrences = early ∷ late ∷ [];
}

abbrev pub seen_at : String → LiveRecord ℕ
seen_at last_stop_id = record {
  raw_message = "";
  source_timestamp = pos (1500 * second);
  geometry_lat = 25;
  geometry_lng = 1;
  object_id = "";
  global_id = "";
  vehicle_runtime_id = "";
  vehicle_type = "";
  line_type = "";
  line_id = "1";
  line_name = "1";
  live_route_id = "7";
  course = "";
  low_floor = "";
  delay = 0;
  bearing = 0;
  last_stop_id = last_stop_id;
  last_post_id = "";
  final_stop_id = "";
  final_stop_name = "";
  service_id = "";
  observed_departure_time = pos 0;
  observed_departure_valid = false;
  oc_final_stop_id = "";
  oc_final_stop_name = "";
  oc_line_id = "";
  oc_line_name = "";
  oc_route_id = "";
  state = "";
  tm_flag_text = "";
  is_inactive = false;
}

abbrev pub store : GtfsStore ℕ
store = record {
  loaded_week_key = "";
  definitions_by_uid = ("MHD_TRIP_1", tram) ∷ [];
  line_route_index = ("1/7", tram ∷ []) ∷ [];
  registered_week_uids = [];
}

abbrev pub tram_match : TripMatch ℕ
tram_match = record { definition = tram; occurrence = late; score = pos 0 }

-- Every time lies on the same day.
abbrev pub one_day : Time → ℕ × ℕ
one_day t = (2024, 1)

abbrev pub formats : Formats
formats = record { format_date = λ t. ""; format_nano = λ t. ""; marshal_strings = λ l. some "[]" }

abbrev pub config : AppConfig
config = record {
  matching_window = pos (300 * second);
  trip_end_reserve = pos (300 * second);
  startup_grace_period = pos (60 * second);
  synthetic_jitter = pos second;
}

abbrev pub oracle : Oracle
oracle = record { registered_at = pos (1500 * second); now = pos (1500 * second); draw = 7 }

abbrev pub running : InstanceState
running = record {
  uid = "MHD_TRIP_1";
  label = "1";
  tags = [];
  seen_since_start = true;
  currently_active = true;
  close_at = pos (1000 * second);
  last_source_time = pos (900 * second);
  last_occurrence_at = pos (1000 * second);
  last_vehicle_id = "";
}

abbrev pub one_running : Runtime
one_running = record {
  sd_instances = new_set;
  instance_states = ("MHD_TRIP_1", running) ∷ [];
  preprocessor_started_at = pos (800 * second);
}

-- A calendar that counts days from a Sunday.
abbrev shifted : Time → ℤ → Time
shifted t (pos n) = pos (pos_part t + n)
shifted t (negsuc n) = pos (pos_part t - (n + 1))

abbrev pub day_count : Location
day_count = record {
  weekday = λ t. pos_part t % 7;
  add_days = shifted;
  midnight = λ t. t;
  clock = λ t hour minute second. t;
  parse_date = λ text. none;
}
