-- ===== src/Mhd/Week/Again.antt =====
-- The second registration of a week by backend/mhd-preprocessor/src/main.go.
use rio_t_preprocessors.Base.{
  Bool, true, ◌||◌, not, String, string_eq, List, [], ◌∷◌, ◌≡◌, refl, ◌∙◌, arith, All,
}
use rio_t_preprocessors.Base.Maps.{has, lookup-insert}
use rio_t_preprocessors.Base.Time.{Time}
use rio_t_preprocessors.Commons.Messages.{SdInstanceInfo}
use rio_t_preprocessors.Commons.Sets.{Set}
use rio_t_preprocessors.Mhd.Store.{GtfsStore, is_week_uid_registered, mark_week_uid_registered}
use rio_t_preprocessors.Mhd.Week.{
  Registered, week_uids, register_uid, register_uids, register_current_week_instances,
}

module _ {F : Type 0} where
  -- A UID that another registration passes over.
  abbrev is_done : GtfsStore F → String → Bool
  is_done store uid = is_week_uid_registered store uid || not (has uid store.definitions_by_uid)

  register_uid-definitions :
      (now : Time) (r : Registered F) (uid : String)
      → (register_uid now r uid).store.definitions_by_uid ≡ r.store.definitions_by_uid
  unfolding register_uid mark_week_uid_registered
  register_uid-definitions now r uid = ground arith

  register_uid-registered :
      (now : Time) (r : Registered F) (uid u : String)
      → is_week_uid_registered r.store u ≡ true
      → is_week_uid_registered (register_uid now r uid).store u ≡ true
  unfolding register_uid mark_week_uid_registered is_week_uid_registered
  register_uid-registered now r uid u h =
      ground (arith, h, lookup-insert uid u tt r.store.registered_week_uids)

  register_uid-done :
      (now : Time) (r : Registered F) (uid : String)
      → is_done (register_uid now r uid).store uid ≡ true
  unfolding register_uid mark_week_uid_registered is_week_uid_registered
  register_uid-done now r uid =
      ground
        (arith, lookup-insert uid uid tt r.store.registered_week_uids, string_eq.beq_iff uid uid)

  register_uid-keeps :
      (now : Time) (r : Registered F) (uid u : String)
      → is_done r.store u ≡ true
      → is_done (register_uid now r uid).store u ≡ true
  register_uid-keeps now r uid u h =
      rw (register_uid-definitions now r uid)
        (ground (arith, h, register_uid-registered now r uid u))

  register_uids-keeps :
      (now : Time) (r : Registered F) (uids : List String) (u : String)
      → is_done r.store u ≡ true
      → is_done (register_uids now r uids).store u ≡ true
  unfolding register_uids
  register_uids-keeps now r [] u h = h
  register_uids-keeps now r (uid ∷ rest) u h =
      register_uids-keeps now (register_uid now r uid) rest u (register_uid-keeps now r uid u h)

  register_uids-done :
      (now : Time) (r : Registered F) (uids : List String)
      → All (λ (u : String). is_done (register_uids now r uids).store u ≡ true) uids
  unfolding register_uids
  register_uids-done now r [] = record {}
  register_uids-done now r (uid ∷ rest) = (
    register_uids-keeps now (register_uid now r uid) rest uid (register_uid-done now r uid),
    register_uids-done now (register_uid now r uid) rest,
  )

  register_uids-definitions :
      (now : Time) (r : Registered F) (uids : List String)
      → (register_uids now r uids).store.definitions_by_uid ≡ r.store.definitions_by_uid
  unfolding register_uids
  register_uids-definitions now r [] = refl
  register_uids-definitions now r (uid ∷ rest) =
      register_uids-definitions now (register_uid now r uid) rest
      ∙ register_uid-definitions now r uid

  register_uid-passes :
      (now : Time) (r : Registered F) (uid : String)
      → is_done r.store uid ≡ true
      → register_uid now r uid ≡ r
  unfolding register_uid
  register_uid-passes now r uid h = ground (arith, h)

  register_uids-passes :
      (now : Time) (r : Registered F) (uids : List String)
      → All (λ (u : String). is_done r.store u ≡ true) uids
      → register_uids now r uids ≡ r
  unfolding register_uids
  register_uids-passes now r [] h = refl
  register_uids-passes now r (uid ∷ rest) (first, all) =
      rw (register_uid-passes now r uid first) (register_uids-passes now r rest all)

  -- The registration of a week that has been registered, at any later time and whatever instances the
  -- platform knows by then, sends nothing and changes nothing.
  pub register_current_week_instances-again :
      (now later : Time) (store : GtfsStore F) (known known_later : Set SdInstanceInfo)
      → let first = register_current_week_instances now store known in
        register_current_week_instances later first.store known_later
        ≡ record { store = first.store; sd_instances = known_later; messages = [] }
  unfolding register_current_week_instances week_uids
  register_current_week_instances-again now later store known known_later =
      let start : Registered F = record { store = store; sd_instances = known; messages = [] } in
      let first = register_uids now start (week_uids store) in
      rw (register_uids-definitions now start (week_uids store)) (
        register_uids-passes later
          record { store = first.store; sd_instances = known_later; messages = [] }
          (week_uids store) (register_uids-done now start (week_uids store)))
