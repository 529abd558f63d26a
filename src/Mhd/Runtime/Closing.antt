-- ===== src/Mhd/Runtime/Closing.antt =====
-- Which instances the passing of time closes.
use rio_t_preprocessors.Base.{
  ◌+◌, nat_eq, ◌==◌, ℕ, Bool, true, false, not, ◌&&◌, String, string_eq, Option, none, some, [],
  ◌∷◌, ◌≡◌, refl, arith, elem, All, IsDistinct, Bool-cases, inl, inr,
}
use rio_t_preprocessors.Base.Int.{pos_part, neg_part, ltb_ℤ}
use rio_t_preprocessors.Base.Maps.{Dict, keys, lookup, has-eq-elem}
use rio_t_preprocessors.Base.Time.{is_zero, Time, jitter_time}
use rio_t_preprocessors.Base.Float.{Float64}
use rio_t_preprocessors.Mhd.Model.{InstanceState, AppConfig}
use rio_t_preprocessors.Mhd.Publish.{Formats, build_state_message}
use rio_t_preprocessors.Mhd.Runtime.{
  Runtime, should_close, close_loop, close_expired_instances, clone_tags,
}
use rio_t_preprocessors.Mhd.Runtime.Activity.{
  is_active, active_uids, inactive_uids, reports_inactive-inactive,
}

-- A time other than the zero time.
abbrev has_time : Time → Bool
has_time t = not (pos_part t + neg_part t == 0)

-- The instance is active, and has a closing time that is not later than now.
abbrev pub is_due : Time → Option InstanceState → Bool
is_due now none = false
is_due now (some state) =
    state.currently_active && has_time state.close_at && not (ltb_ℤ now state.close_at)

should_close-is_due :
    (now : Time) (state : InstanceState) → should_close now state ≡ is_due now (some state)
unfolding should_close is_zero
should_close-is_due now state = ground arith

-- The state stands under its own UID, and an active instance has been seen.
abbrev pub IsSound : String × InstanceState → Type 0
IsSound e = (e.1.uid ≡ e.0) × (e.1.currently_active ≡ true → e.1.seen_since_start ≡ true)

pub record IsValid (rt : Runtime) : Type 0 where
  pub distinct : IsDistinct (keys rt.instance_states)
  pub sound : All IsSound rt.instance_states

module _ (fl : Float64) (formats : Formats) (config : AppConfig) (draw : String → ℕ)
    (now : Time) where
  open fl use {F}

  close_loop-active :
      (m : Dict String InstanceState) (x : String)
      → is_active (lookup x (close_loop fl formats config draw now m).0)
        ≡ (is_active (lookup x m) && not (is_due now (lookup x m)))
  unfolding close_loop lookup
  close_loop-active [] x = refl
  close_loop-active ((key, state) ∷ rest) x =
      ground (arith, close_loop-active rest x, should_close-is_due now state)

  close_loop-inactive :
      (m : Dict String InstanceState) (x : String)
      → IsDistinct (keys m)
      → All IsSound m
      → elem x (inactive_uids (close_loop fl formats config draw now m).1) ≡ is_due now (lookup x m)
  unfolding close_loop lookup build_state_message
  close_loop-inactive [] x d s = refl
  close_loop-inactive ((key, state) ∷ rest) x d s = ground (
    arith,
    close_loop-inactive rest x,
    should_close-is_due now state,
    has-eq-elem x rest,
    string_eq.beq_iff key x,
    reports_inactive-inactive F state.uid
        (jitter_time (draw state.uid) state.close_at config.synthetic_jitter)
        (clone_tags state.tags),
  )

  active_uids-close_loop :
      (m : Dict String InstanceState) → active_uids (close_loop fl formats config draw now m).1 ≡ []
  unfolding close_loop build_state_message
  active_uids-close_loop [] = refl
  active_uids-close_loop ((key, state) ∷ rest) = ground (
    arith,
    active_uids-close_loop rest,
    reports_inactive-inactive F state.uid
        (jitter_time (draw state.uid) state.close_at config.synthetic_jitter)
        (clone_tags state.tags),
  )

  pub close_loop-keys :
      (m : Dict String InstanceState) → keys (close_loop fl formats config draw now m).0 ≡ keys m
  unfolding close_loop
  close_loop-keys [] = refl
  close_loop-keys ((key, state) ∷ rest) = ground (arith, close_loop-keys rest)

  pub close_loop-IsSound :
      (m : Dict String InstanceState)
      → All IsSound m
      → All IsSound (close_loop fl formats config draw now m).0
  unfolding close_loop
  close_loop-IsSound [] s = tt
  close_loop-IsSound ((key, state) ∷ rest) s = elim (Bool-cases (should_close now state)) [
    | inl y ↦ rw (y, close_loop) ((s.0.0, (λ a. cc)), close_loop-IsSound rest s.1)
    | inr n ↦ rw (n, close_loop) (s.0, close_loop-IsSound rest s.1)
  ]

  -- In a valid state the closing of expired instances makes exactly those inactive that were active, have a closing
  -- time and have reached it; it publishes these as inactive, and no other message.
  pub close_expired_instances_lem :
      (rt : Runtime)
      → IsValid rt
      → let after = close_expired_instances fl formats config draw now rt in
        (active_uids after.1 ≡ [])
        × ((x : String)
            → (is_active (lookup x after.0.instance_states) ≡ (
                is_active (lookup x rt.instance_states)
                && not (is_due now (lookup x rt.instance_states))))
              × (elem x (inactive_uids after.1) ≡ is_due now (lookup x rt.instance_states)))
  unfolding close_expired_instances
  close_expired_instances_lem rt v = (
    active_uids-close_loop rt.instance_states,
    λ x. (
      close_loop-active rt.instance_states x,
      close_loop-inactive rt.instance_states x v.distinct v.sound,
    ),
  )

  close_loop-again :
      (draw' : String → ℕ) (m : Dict String InstanceState)
      → (close_loop fl formats config draw' now (close_loop fl formats config draw now m).0).1 ≡ []
  unfolding close_loop should_close
  close_loop-again draw' [] = refl
  close_loop-again draw' ((key, state) ∷ rest) = ground (arith, close_loop-again draw' rest)

  -- Closing a second time at the same time publishes nothing.
  pub close_expired_instances-again :
      (draw' : String → ℕ) (rt : Runtime)
      → (close_expired_instances fl formats config draw' now
          (close_expired_instances fl formats config draw now rt).0).1
        ≡ []
  unfolding close_expired_instances
  close_expired_instances-again draw' rt = close_loop-again draw' rt.instance_states
