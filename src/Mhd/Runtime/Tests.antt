-- ===== src/Mhd/Runtime/Tests.antt =====
-- Examples for the runtime: one instance is active and is past its closing time.
use rio_t_preprocessors.Base.{
  ℕ, true, not, ◌&&◌, String, string_eq, ◌==◌, if◌then◌else◌, [], ◌∷◌, ◌≡◌, refl, map, some, elem,
  ◌*◌,
}
use rio_t_preprocessors.Base.Int.{pos}
use rio_t_preprocessors.Base.Maps.{lookup}
use rio_t_preprocessors.Base.Time.{Time, second}
use rio_t_preprocessors.Base.Float.{whole}
use rio_t_preprocessors.Commons.Messages.{info_eq}
use rio_t_preprocessors.Mhd.Runtime.{
  Runtime, should_register_instance, process_matched_record, close_expired_instances,
}
use rio_t_preprocessors.Mhd.Runtime.Activity.{
  is_active, is_seen, active_uids, inactive_uids, matched_state, process_matched_record-state,
}
use rio_t_preprocessors.Mhd.Runtime.Closing.{IsValid, is_due, close_expired_instances_lem}
use rio_t_preprocessors.Mhd.Runtime.Reach.{Reach, Step, initial, Reach-IsValid}
use rio_t_preprocessors.Mhd.Samples.{seen_at, tram_match, formats, config, oracle, one_running}

abbrev uid : String
uid = "MHD_TRIP_1"

process_matched_record-state_example :
    let after =
      process_matched_record whole formats config oracle tram_match (seen_at "20") one_running in
    (map (λ r. r.sd_instance_uid) after.1
      ≡ (if should_register_instance one_running.sd_instances uid then uid ∷ [] else []))
    × (should_register_instance after.0.sd_instances uid
        ≡ (not (uid == uid) && should_register_instance one_running.sd_instances uid))
    × (lookup uid after.0.instance_states ≡ (
        if uid == uid
        then some (matched_state whole formats config oracle tram_match (seen_at "20") one_running)
        else lookup uid one_running.instance_states))
    × (after.0.preprocessor_started_at ≡ one_running.preprocessor_started_at)
process_matched_record-state_example =
    process_matched_record-state whole formats config oracle tram_match (seen_at "20") one_running
      uid

one_running-IsValid : IsValid one_running
one_running-IsValid = record { distinct = (refl, tt); sound = ((refl, λ a. refl), tt) }

abbrev draw : String → ℕ
draw x = 3

abbrev now : Time
now = pos (1500 * second)

close_expired_instances_lem_example :
    let after = close_expired_instances whole formats config draw now one_running in
    (active_uids after.1 ≡ [])
    × ((x : String)
        → (is_active (lookup x after.0.instance_states) ≡ (
            is_active (lookup x one_running.instance_states)
            && not (is_due now (lookup x one_running.instance_states))))
          × (elem x (inactive_uids after.1) ≡ is_due now (lookup x one_running.instance_states)))
close_expired_instances_lem_example =
    close_expired_instances_lem whole formats config draw now one_running one_running-IsValid

abbrev matched : Runtime
matched =
    (process_matched_record whole formats config oracle tram_match (seen_at "20")
      (initial (pos 0))).0

abbrev matched_and_closed : Runtime
matched_and_closed = (close_expired_instances whole formats config draw now matched).0

two_steps : Reach whole formats config (pos 0) matched_and_closed
two_steps =
    Reach.next (Reach.next Reach.start (Step.processed oracle tram_match (seen_at "20")))
      (Step.closed draw now)

Reach-IsValid_example :
    IsValid matched_and_closed
    × ((x : String)
        → is_active (lookup x matched_and_closed.instance_states) ≡ true
        → is_seen (lookup x matched_and_closed.instance_states) ≡ true)
Reach-IsValid_example = Reach-IsValid whole formats config (pos 0) two_steps
