-- ===== src/Ndic/Runtime/Reports.antt =====
-- Which messages the processing of a publication publishes.
use rio_t_preprocessors.Base.{
  Bool, not, ◌&&◌, ◌||◌, String, string_eq, ◌==◌, some, List, [], ◌∷◌, ◌++◌, ◌≡◌, refl, arith, elem,
  IsDistinct, if◌then◌else◌, any_b-append, append_assoc, append-nil, ap, subst, ◌∙◌, sym,
}
use rio_t_preprocessors.Base.Int.{ℤ, ltb_ℤ, ◌-ℤ◌}
use rio_t_preprocessors.Base.Maps.{
  Dict, keys, lookup, has, lookup-insert, has-eq-elem, insert-IsDistinct,
}
use rio_t_preprocessors.Base.Time.{Time, after, jitter_time}
use rio_t_preprocessors.Ndic.Model.{Snapshot, InstanceState, AppConfig}
use rio_t_preprocessors.Ndic.Labels.{build_ndic_instance_label, clone_tags}
use rio_t_preprocessors.Ndic.Publish.{build_tags, build_state_message}
use rio_t_preprocessors.Ndic.Runtime.{
  Runtime, Oracle, Progress, start_progress, ndic_instance_uid, find_state, activate, snapshot_time,
  needs_synthetic_start, snapshot_messages, process_snapshot, process_snapshots, close_missing,
  process_fetch_result,
}
use rio_t_preprocessors.Ndic.Runtime.Registration.{snapshot_uids}
use rio_t_preprocessors.Ndic.Runtime.Activity.{is_active, is_seen, process_snapshots-Activates}
use rio_t_preprocessors.Ndic.Runtime.Messages.{
  active_uids, inactive_uids, active_uids-append, inactive_uids-append, reports_inactive-active,
  reports_inactive-inactive,
}

module _ {F : Type 0} (float_of_int : ℤ → F) (config : AppConfig) (o : Oracle) (t : Time) where
  module _ (started : Time) (state : InstanceState) (uid : String) (snapshot : Snapshot F) where
    active_uids-snapshot_messages :
        active_uids (snapshot_messages float_of_int config o t started state uid snapshot)
        ≡ uid ∷ []
    unfolding snapshot_messages build_state_message
    active_uids-snapshot_messages = ground (
      arith,
      reports_inactive-active float_of_int uid (snapshot_time t snapshot) (build_tags snapshot)
          snapshot,
      reports_inactive-inactive F uid (jitter_time (o.draw uid) started config.synthetic_jitter)
          (build_tags snapshot),
    )

    inactive_uids-snapshot_messages :
        (x : String)
        → elem x
            (inactive_uids (snapshot_messages float_of_int config o t started state uid snapshot))
          ≡ (needs_synthetic_start config o t started uid state && (uid == x))
    unfolding snapshot_messages build_state_message
    inactive_uids-snapshot_messages x = ground (
      arith,
      reports_inactive-active float_of_int uid (snapshot_time t snapshot) (build_tags snapshot)
          snapshot,
      reports_inactive-inactive F uid (jitter_time (o.draw uid) started config.synthetic_jitter)
          (build_tags snapshot),
    )

  -- An instance of the publication is reported inactive at the start of the run if it was not seen
  -- since then, the publication is later than the start, and the grace period is over.
  abbrev pub starts_late : Progress F → String → Bool
  starts_late p x =
      not (is_seen (lookup x p.runtime.instance_states))
      && after t p.runtime.preprocessor_started_at
      && ltb_ℤ config.startup_grace_period (o.now x -ℤ p.runtime.preprocessor_started_at)

  record Reports (uids : List String) (p p' : Progress F) : Type 0 where
    active : active_uids p'.states ≡ active_uids p.states ++ uids
    inactive :
        (x : String)
        → elem x (inactive_uids p'.states)
          ≡ (elem x (inactive_uids p.states) || (elem x uids && starts_late p x))

  seen-find_state :
      (states : Dict String InstanceState) (uid label : String) (tags : Dict String String)
      → (find_state states uid label tags).seen_since_start ≡ is_seen (lookup uid states)
  unfolding find_state
  seen-find_state states uid label tags = ground arith

  needs_synthetic_start-starts_late :
      (p : Progress F) (uid label : String) (tags : Dict String String)
      → needs_synthetic_start config o t p.runtime.preprocessor_started_at uid
          (find_state p.runtime.instance_states uid label tags)
        ≡ starts_late p uid
  unfolding needs_synthetic_start
  needs_synthetic_start-starts_late p uid label tags =
      rw (seen-find_state p.runtime.instance_states uid label tags)

  inactive-round :
      (p : Progress F) (uid label x : String) (tags : Dict String String) (snapshot : Snapshot F)
      → elem x (
          inactive_uids (
            p.states
            ++ snapshot_messages float_of_int config o t p.runtime.preprocessor_started_at
                (find_state p.runtime.instance_states uid label tags)
                uid
                snapshot))
        ≡ (elem x (inactive_uids p.states) || (starts_late p uid && (uid == x)))
  inactive-round p uid label x tags snapshot =
      let started = p.runtime.preprocessor_started_at in
      let found = find_state p.runtime.instance_states uid label tags in
      let new = snapshot_messages float_of_int config o t started found uid snapshot in
      ap (elem x) (inactive_uids-append p.states new)
      ∙ any_b-append (λ y. y == x) (inactive_uids p.states) (inactive_uids new)
      ∙ ap (λ b. elem x (inactive_uids p.states) || b)
          (inactive_uids-snapshot_messages started found uid snapshot x
            ∙ ap (λ b. b && (uid == x)) (needs_synthetic_start-starts_late p uid label tags))

  process_snapshots-Reports :
      (l : Dict String (Snapshot F)) (p : Progress F)
      → IsDistinct (snapshot_uids l)
      → Reports (snapshot_uids l) p (process_snapshots float_of_int config o t l p)
  unfolding process_snapshots process_snapshot activate
  process_snapshots-Reports [] p d = record {
    active = sym (append-nil (active_uids p.states));
    inactive = λ x. ground arith;
  }
  process_snapshots-Reports ((source_id, snapshot) ∷ rest) p d =
      let uid = ndic_instance_uid source_id in
      let states = p.runtime.instance_states in
      let started = p.runtime.preprocessor_started_at in
      let tags = build_tags snapshot in
      let label = build_ndic_instance_label (some snapshot) in
      let found = find_state states uid label tags in
      let state = activate label tags (snapshot_time t snapshot) found in
      let new = snapshot_messages float_of_int config o t started found uid snapshot in
      let ih =
        process_snapshots-Reports rest
          (process_snapshot float_of_int config o t source_id snapshot p) d.1 in
      record {
        active =
            ih.active
            ∙ ap (λ us. us ++ snapshot_uids rest)
                (active_uids-append p.states new
                  ∙ ap (λ us. active_uids p.states ++ us)
                      (active_uids-snapshot_messages started found uid snapshot))
            ∙ append_assoc (active_uids p.states) (uid ∷ []) (snapshot_uids rest);
        inactive = λ x. ground (
          arith,
          ih.inactive x,
          inactive-round p uid label x tags snapshot,
          lookup-insert uid x state states,
          string_eq.beq_iff uid x,
        );
      }

  active_uids-close_missing :
      (cur : Dict String (Unit {0})) (m : Dict String InstanceState)
      → active_uids (close_missing float_of_int config o t cur m).1 ≡ []
  unfolding close_missing build_state_message
  active_uids-close_missing cur [] = refl
  active_uids-close_missing cur ((uid, state) ∷ rest) = ground (
    arith,
    active_uids-close_missing cur rest,
    reports_inactive-inactive F uid (jitter_time (o.closing_draw uid) t config.synthetic_jitter)
        (clone_tags state.tags),
  )

  inactive_uids-close_missing :
      (cur : Dict String (Unit {0})) (m : Dict String InstanceState) (x : String)
      → IsDistinct (keys m)
      → elem x (inactive_uids (close_missing float_of_int config o t cur m).1)
        ≡ (is_active (lookup x m) && not (has x cur))
  unfolding close_missing build_state_message lookup
  inactive_uids-close_missing cur [] x d = refl
  inactive_uids-close_missing cur ((uid, state) ∷ rest) x d = ground (
    arith,
    inactive_uids-close_missing cur rest x,
    has-eq-elem x rest,
    string_eq.beq_iff uid x,
    reports_inactive-inactive F uid (jitter_time (o.closing_draw uid) t config.synthetic_jitter)
        (clone_tags state.tags),
  )

  process_snapshots-IsDistinct :
      (l : Dict String (Snapshot F)) (p : Progress F)
      → IsDistinct (keys p.runtime.instance_states)
      → IsDistinct (keys (process_snapshots float_of_int config o t l p).runtime.instance_states)
  unfolding process_snapshots process_snapshot
  process_snapshots-IsDistinct [] p d = d
  process_snapshots-IsDistinct ((source_id, snapshot) ∷ rest) p d =
      process_snapshots-IsDistinct rest
        (process_snapshot float_of_int config o t source_id snapshot p)
        (insert-IsDistinct _ _ p.runtime.instance_states d)

  -- Where the snapshots have distinct UIDs and no instance has two states:
  -- The messages of a publication report each of its snapshots active, once and in order. An
  -- instance is reported inactive exactly if it is in the publication and starts late, or is not in
  -- it and was active before.
  pub process_fetch_result-reports :
      (snapshots : Dict String (Snapshot F)) (rt : Runtime)
      → IsDistinct (snapshot_uids snapshots)
      → IsDistinct (keys rt.instance_states)
      → let messages =
          (process_fetch_result float_of_int config o
            (record { publication_time = t; snapshots = snapshots })
            rt).2 in
        (active_uids messages ≡ snapshot_uids snapshots)
        × ((x : String)
            → elem x (inactive_uids messages) ≡ (
                if elem x (snapshot_uids snapshots)
                then starts_late (start_progress rt) x
                else is_active (lookup x rt.instance_states)))
  unfolding process_fetch_result lookup
  process_fetch_result-reports snapshots rt d k =
      let p0 = start_progress rt in
      let p = process_snapshots float_of_int config o t snapshots p0 in
      let closing =
        (close_missing float_of_int config o t p.current_uids p.runtime.instance_states).1 in
      let reports = process_snapshots-Reports snapshots p0 d in
      let activates = process_snapshots-Activates float_of_int config o t snapshots p0 in
      let distinct = process_snapshots-IsDistinct snapshots p0 k in
      (
        active_uids-append p.states closing
            ∙ ap (λ us. active_uids p.states ++ us)
                (active_uids-close_missing p.current_uids p.runtime.instance_states)
            ∙ append-nil (active_uids p.states)
            ∙ reports.active,
        λ x.
            ap (elem x) (inactive_uids-append p.states closing)
            ∙ any_b-append (λ y. y == x) (inactive_uids p.states) (inactive_uids closing)
            ∙ ground (
              arith,
              reports.inactive x,
              activates.active x,
              activates.current x,
              inactive_uids-close_missing p.current_uids p.runtime.instance_states x distinct,
            ),
      )

  keys-close_missing :
      (cur : Dict String (Unit {0})) (m : Dict String InstanceState)
      → keys (close_missing {F = F} float_of_int config o t cur m).0 ≡ keys m
  unfolding close_missing
  keys-close_missing cur [] = refl
  keys-close_missing cur ((uid, state) ∷ rest) = ground (arith, keys-close_missing cur rest)

  -- The states stay a map: no key occurs twice.
  pub keys-process_fetch_result :
      (snapshots : Dict String (Snapshot F)) (rt : Runtime)
      → IsDistinct (keys rt.instance_states)
      → IsDistinct (
          keys
            (process_fetch_result float_of_int config o
              (record { publication_time = t; snapshots = snapshots })
              rt).0.instance_states)
  unfolding process_fetch_result
  keys-process_fetch_result snapshots rt k =
      let p = process_snapshots float_of_int config o t snapshots (start_progress rt) in
      subst IsDistinct (sym (keys-close_missing p.current_uids p.runtime.instance_states))
        (process_snapshots-IsDistinct snapshots (start_progress rt) k)
