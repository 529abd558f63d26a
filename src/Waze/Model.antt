-- ===== src/Waze/Model.antt =====
-- backend/wazejam-preprocessor/src/main.go: the data of the package, and its constants.
-- `F` stands for `float64`.
use rio_t_preprocessors.Base.{◌*◌, ℕ, Bool, String, List}
use rio_t_preprocessors.Base.Int.{ℤ}
use rio_t_preprocessors.Base.Maps.{Dict}
use rio_t_preprocessors.Commons.Json.{Members}
use rio_t_preprocessors.Base.Time.{Time, millisecond}

abbrev pub startup_jitter : ℕ
startup_jitter = 500 * millisecond

abbrev pub waze_sd_type_uid : String
waze_sd_type_uid = "WAZE_JAM_LOCATION"

abbrev pub unknown_tag_value : String
unknown_tag_value = "unknown"

pub record LineCoordinate (F : Type 0) : Type 0 where
  pub x : F
  pub y : F

pub record SegmentReference : Type 0 where
  pub id : ℤ
  pub from_node : ℤ
  pub to_node : ℤ
  pub is_forward : Bool

pub record DeviceSnapshot : Type 0 where
  pub label : String
  pub tags : Dict String String

pub record DeviceAggregate (F : Type 0) : Type 0 where
  pub uid : String
  pub label : String
  pub event_time : Time
  pub tags : Dict String String
  pub raw_jams : List (Members F)
  pub jam_count : ℕ
  pub delay : F
  pub length : F
  pub level : F
  pub speed : F
  pub speed_kph : F
  pub pub_millis_latest : ℤ
