-- ===== src/Mhd/Week.antt =====
-- backend/mhd-preprocessor/src/main.go: the registration of the trips of the loaded week.
pub mod Again
mod Tests
use Prim.Native.String.{compare}
use text.Mathlib.Text.{is_lt}
use rio_t_preprocessors.Base.{
  Bool, String, string_eq, if◌then◌else◌, Option, none, some, List, [], ◌∷◌, ◌++◌,
}
use rio_t_preprocessors.Base.Maps.{lookup, keys}
use rio_t_preprocessors.Base.Sorting.{sort_stable}
use rio_t_preprocessors.Base.Time.{Time}
use rio_t_preprocessors.Commons.Messages.{SdInstanceInfo, RegistrationMessage}
use rio_t_preprocessors.Commons.Sets.{Set}
use rio_t_preprocessors.Mhd.Store.{GtfsStore, is_week_uid_registered, mark_week_uid_registered}
use rio_t_preprocessors.Mhd.Runtime.{register_instance_if_needed}

-- The store, the known instances, and the messages to publish.
pub record Registered (F : Type 0) : Type 0 where
  pub store : GtfsStore F
  pub sd_instances : Set SdInstanceInfo
  pub messages : List RegistrationMessage

module _ {F : Type 0} where
  unfoldable pub week_uids : GtfsStore F → List String
  week_uids store =
      sort_stable (λ (a : String) b. is_lt (compare a b)) (keys store.definitions_by_uid)

  -- One round of the loop; `now` is the clock that a message reads.
  unfoldable pub register_uid : Time → Registered F → String → Registered F
  register_uid now r uid =
      if is_week_uid_registered r.store uid
      then r
      else elim (lookup uid r.store.definitions_by_uid) [
        | none ↦ r
        | some definition ↦
            let (sd_instances, sent) =
              register_instance_if_needed now definition.uid definition.label r.sd_instances in
            record {
              store = mark_week_uid_registered r.store uid;
              sd_instances = sd_instances;
              messages = r.messages ++ sent;
            }
      ]

  unfoldable pub register_uids : Time → Registered F → List String → Registered F
  register_uids now r [] = r
  register_uids now r (uid ∷ rest) = register_uids now (register_uid now r uid) rest

  unfoldable pub register_current_week_instances :
      Time → GtfsStore F → Set SdInstanceInfo → Registered F
  register_current_week_instances now store sd_instances =
      register_uids now record { store = store; sd_instances = sd_instances; messages = [] }
        (week_uids store)
