-- ===== src/Commons/Messages.antt =====
-- backend/commons/src/sharedModel/iscMessages.go: the messages that the preprocessors publish and
-- consume. `F` stands for `float64`; a `Param` is what a message's `map[string]interface{}` holds.
use rio_t_preprocessors.Base.{
  Bool, true, ◌&&◌, ◌≡◌, ◌↔◌, ◌==◌, String, string_eq, bool_eq, Eq, List, arith,
}
use rio_t_preprocessors.Base.Maps.{Dict}
use rio_t_preprocessors.Base.Time.{Time}

pub record SdInstanceInfo : Type 0 where
  pub sd_instance_uid : String
  pub confirmed_by_user : Bool

abbrev info_beq : SdInstanceInfo → SdInstanceInfo → Bool
info_beq a b = a.sd_instance_uid == b.sd_instance_uid && a.confirmed_by_user == b.confirmed_by_user

pub info_beq_iff : (a b : SdInstanceInfo) → (info_beq a b ≡ true) ↔ (a ≡ b)
info_beq_iff a b = ground (
  arith,
  string_eq.beq_iff a.sd_instance_uid b.sd_instance_uid,
  bool_eq.beq_iff a.confirmed_by_user b.confirmed_by_user,
)

-- Go compares two such structs field by field.
instance abbrev pub info_eq : Eq SdInstanceInfo
info_eq = record { beq = info_beq; beq_iff = info_beq_iff }

pub data Param (F : Type 0) : Type 0 where
  text : String → Param F
  number : F → Param F
  flag : Bool → Param F

-- `KPIFulfillmentCheckRequestISCMessage`
pub record StateMessage (F : Type 0) : Type 0 where
  pub event_time : Time
  pub sd_instance_uid : String
  pub sd_type_uid : String
  pub parameters : Dict String (Param F)

-- `SDInstanceRegistrationRequestISCMessage`
pub record RegistrationMessage : Type 0 where
  pub event_time : Time
  pub label : String
  pub sd_instance_uid : String
  pub sd_type_uid : String

pub data SdParameterType : Type 0 where
  string_type boolean_type number_type : SdParameterType

pub data SdParameterRole : Type 0 where
  field_role tag_role : SdParameterRole

pub record SdParameter : Type 0 where
  pub denotation : String
  pub type : SdParameterType
  pub label : String
  pub role : SdParameterRole

-- `SDTypeRegistrationRequestISCMessage`
pub record SdTypeRegistration : Type 0 where
  pub sd_type_uid : String
  pub label : String
  pub parameters : List SdParameter
