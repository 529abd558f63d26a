-- ===== src/Waze/Publish.antt =====
-- backend/wazejam-preprocessor/src/publish.go: the messages for an instance.
use rio_t_preprocessors.Base.{String}
use rio_t_preprocessors.Base.Maps.{Dict}
use rio_t_preprocessors.Base.Time.{Time}
use rio_t_preprocessors.Commons.Messages.{Param, StateMessage, RegistrationMessage}
use rio_t_preprocessors.Waze.Model.{waze_sd_type_uid}

unfoldable pub build_state_message :
    {F : Type 0} → String → Time → Dict String (Param F) → StateMessage F
build_state_message uid event_time params = record {
  event_time = event_time;
  sd_instance_uid = uid;
  sd_type_uid = waze_sd_type_uid;
  parameters = params;
}

unfoldable pub build_registration_message : String → String → Time → RegistrationMessage
build_registration_message uid label event_time = record {
  event_time = event_time;
  label = label;
  sd_instance_uid = uid;
  sd_type_uid = waze_sd_type_uid;
}
