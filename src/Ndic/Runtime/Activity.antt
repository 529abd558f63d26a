-- ===== src/Ndic/Runtime/Activity.antt =====
-- Which instances are active after a publication, and that the states stay well formed.
use rio_t_preprocessors.Base.{
  Bool, false, ◌&&◌, ◌||◌, String, string_eq, none, some, List, [], ◌∷◌, ◌≡◌, refl, arith, elem,
  Option,
}
use rio_t_preprocessors.Base.Int.{ℤ}
use rio_t_preprocessors.Base.Maps.{Dict, lookup, has, lookup-insert}
use rio_t_preprocessors.Base.Time.{Time}
use rio_t_preprocessors.Ndic.Model.{Snapshot, InstanceState, AppConfig}
use rio_t_preprocessors.Ndic.Labels.{build_ndic_instance_label}
use rio_t_preprocessors.Ndic.Publish.{build_tags}
use rio_t_preprocessors.Ndic.Runtime.{
  Runtime, Oracle, Progress, start_progress, ndic_instance_uid, find_state, activate, snapshot_time,
  process_snapshot, process_snapshots, close_missing, process_fetch_result,
}
use rio_t_preprocessors.Ndic.Runtime.Registration.{snapshot_uids}

abbrev pub is_active : Option InstanceState → Bool
is_active none = false
is_active (some state) = state.currently_active

abbrev pub is_seen : Option InstanceState → Bool
is_seen none = false
is_seen (some state) = state.seen_since_start

module _ {F : Type 0} (float_of_int : ℤ → F) (config : AppConfig) (o : Oracle) (t : Time) where
  -- What the loop does to the states and to the set of current UIDs.
  pub record Activates (uids : List String) (p p' : Progress F) : Type 0 where
    pub active :
        (x : String)
        → is_active (lookup x p'.runtime.instance_states)
          ≡ (elem x uids || is_active (lookup x p.runtime.instance_states))
    pub seen :
        (x : String)
        → is_seen (lookup x p'.runtime.instance_states)
          ≡ (elem x uids || is_seen (lookup x p.runtime.instance_states))
    pub current : (x : String) → has x p'.current_uids ≡ (elem x uids || has x p.current_uids)
    pub started : p'.runtime.preprocessor_started_at ≡ p.runtime.preprocessor_started_at

  pub process_snapshots-Activates :
      (l : Dict String (Snapshot F)) (p : Progress F)
      → Activates (snapshot_uids l) p (process_snapshots float_of_int config o t l p)
  unfolding process_snapshots process_snapshot activate
  process_snapshots-Activates [] p = record {
    active = λ x. refl;
    seen = λ x. refl;
    current = λ x. refl;
    started = refl;
  }
  process_snapshots-Activates ((source_id, snapshot) ∷ rest) p =
      let uid = ndic_instance_uid source_id in
      let states = p.runtime.instance_states in
      let tags = build_tags snapshot in
      let label = build_ndic_instance_label (some snapshot) in
      let state =
        activate label tags (snapshot_time t snapshot) (find_state states uid label tags) in
      let ih =
        process_snapshots-Activates rest
          (process_snapshot float_of_int config o t source_id snapshot p) in
      record {
        active = λ x.
            ground (arith, ih.active x, lookup-insert uid x state states, string_eq.beq_iff uid x);
        seen = λ x.
            ground (arith, ih.seen x, lookup-insert uid x state states, string_eq.beq_iff uid x);
        current = λ x. ground (arith, ih.current x, lookup-insert uid x tt p.current_uids);
        started = ih.started;
      }

  close_missing-active :
      (cur : Dict String (Unit {0})) (m : Dict String InstanceState) (x : String)
      → is_active (lookup x (close_missing {F = F} float_of_int config o t cur m).0)
        ≡ (is_active (lookup x m) && has x cur)
  unfolding close_missing lookup
  close_missing-active cur [] x = refl
  close_missing-active cur ((uid, state) ∷ rest) x =
      ground (arith, close_missing-active cur rest x, string_eq.beq_iff uid x)

  close_missing-seen :
      (cur : Dict String (Unit {0})) (m : Dict String InstanceState) (x : String)
      → is_seen (lookup x (close_missing {F = F} float_of_int config o t cur m).0)
        ≡ is_seen (lookup x m)
  unfolding close_missing lookup
  close_missing-seen cur [] x = refl
  close_missing-seen cur ((uid, state) ∷ rest) x =
      ground (arith, close_missing-seen cur rest x, string_eq.beq_iff uid x)

  -- After a publication an instance is active exactly if the publication has a snapshot for it, and
  -- seen if it has one or was seen before, whatever the states were.
  pub process_fetch_result-activity :
      (snapshots : Dict String (Snapshot F)) (rt : Runtime) (x : String)
      → let after =
          (process_fetch_result float_of_int config o
            (record { publication_time = t; snapshots = snapshots })
            rt).0 in
        (is_active (lookup x after.instance_states) ≡ elem x (snapshot_uids snapshots))
        × (is_seen (lookup x after.instance_states)
            ≡ (elem x (snapshot_uids snapshots) || is_seen (lookup x rt.instance_states)))
  unfolding process_fetch_result lookup
  process_fetch_result-activity snapshots rt x =
      let p0 = start_progress rt in
      let p = process_snapshots float_of_int config o t snapshots p0 in
      let loop = process_snapshots-Activates snapshots p0 in
      (
        ground (
          arith,
          loop.active x,
          loop.current x,
          close_missing-active p.current_uids p.runtime.instance_states x,
        ),
        ground (arith, loop.seen x, close_missing-seen p.current_uids p.runtime.instance_states x),
      )
