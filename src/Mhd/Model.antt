-- ===== src/Mhd/Model.antt =====
-- backend/mhd-preprocessor/src/model.go and the settings of config.go that the processing reads.
-- `F` stands for `float64`. The attributes that a live record was read from are kept in it by the
-- program and never read again, so the model leaves that field out.
use rio_t_preprocessors.Base.{Bool, String, List}
use rio_t_preprocessors.Base.Int.{ℤ}
use rio_t_preprocessors.Base.Maps.{Dict}
use rio_t_preprocessors.Base.Time.{Time, Duration}

pub record LiveRecord (F : Type 0) : Type 0 where
  pub raw_message : String
  pub source_timestamp : Time
  pub geometry_lat : F
  pub geometry_lng : F
  pub object_id : String
  pub global_id : String
  pub vehicle_runtime_id : String
  pub vehicle_type : String
  pub line_type : String
  pub line_id : String
  pub line_name : String
  pub live_route_id : String
  pub course : String
  pub low_floor : String
  pub delay : F
  pub bearing : F
  pub last_stop_id : String
  pub last_post_id : String
  pub final_stop_id : String
  pub final_stop_name : String
  pub service_id : String
  pub observed_departure_time : Time
  pub observed_departure_valid : Bool
  pub oc_final_stop_id : String
  pub oc_final_stop_name : String
  pub oc_line_id : String
  pub oc_line_name : String
  pub oc_route_id : String
  pub state : String
  pub tm_flag_text : String
  pub is_inactive : Bool

pub record StopMetadata (F : Type 0) : Type 0 where
  pub id : String
  pub name : String
  pub lat : F
  pub lng : F

pub record TripOccurrence : Type 0 where
  pub trip_id : String
  pub service_id : String
  pub service_date : Time
  pub scheduled_start : Time
  pub scheduled_end : Time

pub record TripDefinition (F : Type 0) : Type 0 where
  pub uid : String
  pub label : String
  pub trip_id : String
  pub route_id : String
  pub route_short_name : String
  pub direction_id : String
  pub trip_headsign : String
  pub departure_time : String
  pub from_stop_id : String
  pub from_stop_name : String
  pub to_stop_id : String
  pub to_stop_name : String
  pub service_id : String
  pub service_days : List String
  pub stop_ids : List String
  pub stop_metadata : List (StopMetadata F)
  pub line_id : String
  pub live_route_id : String
  pub occurrences : List TripOccurrence

pub record TripMatch (F : Type 0) : Type 0 where
  pub definition : TripDefinition F
  pub occurrence : TripOccurrence
  pub score : Duration

pub record InstanceState : Type 0 where
  pub uid : String
  pub label : String
  pub tags : Dict String String
  pub seen_since_start : Bool
  pub currently_active : Bool
  pub close_at : Time
  pub last_source_time : Time
  pub last_occurrence_at : Time
  pub last_vehicle_id : String

pub record TripCsvRecord : Type 0 where
  pub trip_id : String
  pub route_id : String
  pub service_id : String
  pub trip_headsign : String
  pub direction_id : String
  pub route_short_name : String
  pub line_id : String
  pub live_route_id : String

pub record StopTimeRecord : Type 0 where
  pub trip_id : String
  pub stop_id : String
  pub arrival_time : String
  pub departure_time : String
  pub stop_sequence : ℤ

pub record AppConfig : Type 0 where
  pub matching_window : Duration
  pub trip_end_reserve : Duration
  pub startup_grace_period : Duration
  pub synthetic_jitter : Duration

abbrev pub mhd_sd_type_uid : String
mhd_sd_type_uid = "MHD_TRIP"
