-- ===== src/Ndic/Model.antt =====
-- backend/ndic-preprocessor/src/model.go and the constants and settings of config.go.
-- `F` stands for `float64`; a pointer that may be nil is an `Option`.
use rio_t_preprocessors.Base.{◌*◌, Bool, String, List, Option}
use rio_t_preprocessors.Base.Int.{ℤ, pos}
use rio_t_preprocessors.Base.Maps.{Dict}
use rio_t_preprocessors.Base.Time.{Time, Duration, second, millisecond}

pub record TmcMetadata (F : Type 0) : Type 0 where
  pub location_code : String
  pub point_name : String
  pub area_ref : String
  pub area_name : String
  pub road_lcd : String
  pub segment_lcd : String
  pub road_number : String
  pub road_name : String
  pub latitude : Option F
  pub longitude : Option F

pub record RawEntry (F : Type 0) : Type 0 where
  pub type : String
  pub event_time : Time
  pub vehicle_type : String
  pub qualifier_type : String
  pub traffic_level_value : String
  pub speed : Option F
  pub duration : Option F

pub record Snapshot (F : Type 0) : Type 0 where
  pub source_identification : String
  pub event_time : Time
  pub primary_location_code : String
  pub secondary_location_code : String
  pub tmc_metadata : Option (TmcMetadata F)
  pub traffic_level_any_vehicle : Option ℤ
  pub traffic_speed_any_vehicle : Option F
  pub travel_time_any_vehicle : Option F
  pub raw_entries : List (RawEntry F)

pub record ParsedFetch (F : Type 0) : Type 0 where
  pub publication_time : Time
  pub snapshots : Dict String (Snapshot F)

pub record InstanceState : Type 0 where
  pub uid : String
  pub label : String
  pub tags : Dict String String
  pub seen_since_start : Bool
  pub currently_active : Bool
  pub last_event_time : Time

-- The settings that the processing of a fetch reads.
pub record AppConfig : Type 0 where
  pub fetch_delay : Duration
  pub startup_grace_period : Duration
  pub synthetic_jitter : Duration

abbrev pub default_config : AppConfig
default_config = record {
  fetch_delay = pos (310 * second);
  startup_grace_period = pos (60 * second);
  synthetic_jitter = pos (500 * millisecond);
}

abbrev pub ndic_sd_type_uid : String
ndic_sd_type_uid = "NDIC_TRAFFIC"
