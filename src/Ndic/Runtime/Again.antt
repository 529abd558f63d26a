-- ===== src/Ndic/Runtime/Again.antt =====
-- A publication that is processed a second time, as when the source has nothing new.
use rio_t_preprocessors.Base.{
  false, String, string_eq, [], ◌∷◌, List, ◌≡◌, refl, arith, elem, IsDistinct, beq_self,
}
use rio_t_preprocessors.Base.Int.{ℤ}
use rio_t_preprocessors.Base.Maps.{Dict, keys}
use rio_t_preprocessors.Base.Time.{Time}
use rio_t_preprocessors.Commons.Messages.{RegistrationMessage}
use rio_t_preprocessors.Ndic.Model.{Snapshot, AppConfig, ParsedFetch}
use rio_t_preprocessors.Ndic.Runtime.{Runtime, Oracle, process_fetch_result}
use rio_t_preprocessors.Ndic.Runtime.Registration.{
  snapshot_uids, registered_uids, process_fetch_result-registrations,
}
use rio_t_preprocessors.Ndic.Runtime.Activity.{process_fetch_result-activity}
use rio_t_preprocessors.Ndic.Runtime.Messages.{active_uids, inactive_uids}
use rio_t_preprocessors.Ndic.Runtime.Reports.{
  process_fetch_result-reports, keys-process_fetch_result,
}

nil_of_none : (xs : List String) → ((x : String) → elem x xs ≡ false) → xs ≡ []
nil_of_none [] h = refl
nil_of_none (x ∷ xs) h = ground (arith, h x, beq_self x)

nil_of_map : (ms : List RegistrationMessage) → registered_uids ms ≡ [] → ms ≡ []
nil_of_map [] h = refl
nil_of_map (m ∷ ms) h = cc

abbrev fetch_at : {F : Type 0} → Time → Dict String (Snapshot F) → ParsedFetch F
fetch_at t snapshots = record { publication_time = t; snapshots = snapshots }

module _ {F : Type 0} (float_of_int : ℤ → F) (config : AppConfig) where
  -- Where the snapshots have distinct UIDs and no instance has two states:
  -- Where the snapshots of a publication have been processed, processing them again registers
  -- nothing, reports each of them active once more, and reports no instance inactive.
  pub process_fetch_result-again :
      (o o' : Oracle) (t t' : Time) (snapshots : Dict String (Snapshot F)) (rt : Runtime)
      → IsDistinct (snapshot_uids snapshots)
      → IsDistinct (keys rt.instance_states)
      → let first = process_fetch_result float_of_int config o (fetch_at t snapshots) rt in
        let second = process_fetch_result float_of_int config o' (fetch_at t' snapshots) first.0 in
        (second.1 ≡ [])
        × (active_uids second.2 ≡ snapshot_uids snapshots)
        × (inactive_uids second.2 ≡ [])
  process_fetch_result-again o o' t t' snapshots rt d k =
      let rt' = (process_fetch_result float_of_int config o (fetch_at t snapshots) rt).0 in
      let known = process_fetch_result-registrations float_of_int config o t snapshots rt in
      let new = process_fetch_result-registrations float_of_int config o' t' snapshots rt' in
      let reports =
        process_fetch_result-reports float_of_int config o' t' snapshots rt' d
          (keys-process_fetch_result float_of_int config o t snapshots rt k) in
      (
        nil_of_map _ (nil_of_none _ (λ x. ground (arith, known.2 x, new.1 x))),
        reports.0,
        nil_of_none _ (λ x. ground (
          arith,
          reports.1 x,
          process_fetch_result-activity float_of_int config o t snapshots rt x,
        )),
      )
