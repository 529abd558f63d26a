-- ===== src/Mhd/Runtime/Reach.antt =====
-- Every run of the MHD preprocessor: records, closings and updates of the known instances, in any
-- order and number. The calls that share the states hold the mutex over their whole access to them,
-- so their effects follow one another.
use rio_t_preprocessors.Base.{
  ℕ, true, String, string_eq, ◌==◌, some, List, [], ◌∷◌, ◌≡◌, refl, arith, All, IsDistinct,
  Bool-cases, inl, inr, subst, sym, Option-cases,
}
use rio_t_preprocessors.Base.Maps.{Dict, lookup, insert, insert-IsDistinct}
use rio_t_preprocessors.Base.Time.{Time}
use rio_t_preprocessors.Base.Float.{Float64}
use rio_t_preprocessors.Commons.Sets.{new_set}
use rio_t_preprocessors.Commons.Messages.{SdInstanceInfo}
use rio_t_preprocessors.Mhd.Model.{LiveRecord, TripMatch, InstanceState, AppConfig}
use rio_t_preprocessors.Mhd.Publish.{Formats, build_trip_tags}
use rio_t_preprocessors.Mhd.Runtime.{
  Runtime, Oracle, update_sd_instances, find_state, refresh_state, process_matched_record,
  close_expired_instances,
}
use rio_t_preprocessors.Mhd.Runtime.Activity.{is_active, is_seen}
use rio_t_preprocessors.Mhd.Runtime.Closing.{IsSound, IsValid, close_loop-keys, close_loop-IsSound}

insert-IsSound :
    (uid : String) (state : InstanceState) (m : Dict String InstanceState)
    → IsSound (uid, state)
    → All IsSound m
    → All IsSound (insert uid state m)
unfolding insert
insert-IsSound uid state [] h s = (h, tt)
insert-IsSound uid state ((key, old) ∷ rest) h s = elim (Bool-cases (key == uid)) [
  | inl y ↦ rw (y, insert) ((ground (arith, string_eq.beq_iff key uid, h.0), h.1), s.1)
  | inr n ↦ rw (n, insert) (s.0, insert-IsSound uid state rest h s.1)
]

lookup-uid :
    (m : Dict String InstanceState) (x : String) (state : InstanceState)
    → All IsSound m
    → lookup x m ≡ some state
    → state.uid ≡ x
unfolding lookup
lookup-uid [] x state s h = cc
lookup-uid ((key, old) ∷ rest) x state s h = elim (Bool-cases (key == x)) [
  | inl y ↦ ground (arith, y, h, s.0.0, string_eq.beq_iff key x)
  | inr n ↦ lookup-uid rest x state s.1 (ground (arith, n, h))
]

find_state-uid :
    (m : Dict String InstanceState) (uid label : String) (tags : Dict String String)
    → All IsSound m
    → (find_state m uid label tags).uid ≡ uid
unfolding find_state
find_state-uid m uid label tags s = elim (Option-cases (lookup uid m)) [
  | inl new ↦ rw (new, find_state) refl
  | inr (state, old) ↦ rw (old, find_state) (lookup-uid m uid state s old)
]

lookup-seen :
    (m : Dict String InstanceState) (x : String)
    → All IsSound m
    → is_active (lookup x m) ≡ true
    → is_seen (lookup x m) ≡ true
unfolding lookup
lookup-seen [] x s h = h
lookup-seen ((key, state) ∷ rest) x s h = elim (Bool-cases (key == x)) [
  | inl y ↦ rw (y, lookup) (s.0.1 (ground (arith, y, h)))
  | inr n ↦ rw (n, lookup) (lookup-seen rest x s.1 (ground (arith, n, h)))
]

-- The state when the program starts.
unfoldable pub initial : Time → Runtime
initial started_at = record {
  sd_instances = new_set;
  instance_states = [];
  preprocessor_started_at = started_at;
}

module _ (fl : Float64) (formats : Formats) (config : AppConfig) where
  open fl use {F}

  -- One call of a function that changes the state.
  pub data Step (rt : Runtime) : Runtime → Type 0 where
    processed :
        (o : Oracle) (m : TripMatch F) (live : LiveRecord F)
        → Step rt (process_matched_record fl formats config o m live rt).0
    closed :
        (draw : String → ℕ) (now : Time)
        → Step rt (close_expired_instances fl formats config draw now rt).0
    updated : (payload : List SdInstanceInfo) → Step rt (update_sd_instances rt payload)

  pub data Reach (started_at : Time) : Runtime → Type 0 where
    start : Reach started_at (initial started_at)
    next : {rt rt' : Runtime} → Reach started_at rt → Step rt rt' → Reach started_at rt'

  Step-IsValid : {rt rt' : Runtime} → Step rt rt' → IsValid rt → IsValid rt'
  unfolding process_matched_record refresh_state close_expired_instances update_sd_instances
  Step-IsValid {rt} (processed o m live) v =
      let uid = m.definition.uid in
      let tags = build_trip_tags formats m.definition m.occurrence live in
      record {
        distinct = insert-IsDistinct uid _ rt.instance_states v.distinct;
        sound =
            insert-IsSound uid _ rt.instance_states
              (find_state-uid rt.instance_states uid m.definition.label tags v.sound, λ _. refl)
              v.sound;
      }
  Step-IsValid {rt} (closed draw now) v = record {
    distinct =
        subst IsDistinct (sym (close_loop-keys fl formats config draw now rt.instance_states))
          v.distinct;
    sound = close_loop-IsSound fl formats config draw now rt.instance_states v.sound;
  }
  Step-IsValid (updated payload) v = record { distinct = v.distinct; sound = v.sound }

  Reach-IsValid' : {started_at : Time} {rt : Runtime} → Reach started_at rt → IsValid rt
  unfolding initial
  Reach-IsValid' start = record { distinct = tt; sound = tt }
  Reach-IsValid' (next r st) = Step-IsValid st (Reach-IsValid' r)

  -- In every state that the program can reach no instance has two states, each state has the UID
  -- under which it stands, and an instance that is active has been seen since the start.
  pub Reach-IsValid :
      (started_at : Time) {rt : Runtime}
      → Reach started_at rt
      → IsValid rt
        × ((x : String)
            → is_active (lookup x rt.instance_states) ≡ true
            → is_seen (lookup x rt.instance_states) ≡ true)
  Reach-IsValid started_at {rt} r =
      let v = Reach-IsValid' r in (v, λ x. lookup-seen rt.instance_states x v.sound)
