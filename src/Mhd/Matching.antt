-- ===== src/Mhd/Matching.antt =====
-- backend/mhd-preprocessor/src/matching.go: which trip a live record belongs to.
-- The calendar day of a time in the configured location depends on the time zone data, so it is the
-- parameter `local_day`, which answers with the year and the day of the year.
pub mod Choice
pub mod Score
mod Tests
use rio_t_preprocessors.Base.{
  ℕ, ◌+◌, ◌*◌, Bool, true, false, not, ◌&&◌, ◌||◌, String, string_eq, nat_eq, ◌==◌, if◌then◌else◌,
  Option, none, some, List, [], ◌∷◌,
}
use rio_t_preprocessors.Base.Int.{pos, ltb_ℤ, ◌+ℤ◌, ◌-ℤ◌}
use rio_t_preprocessors.Base.Maps.{Dict, lookup}
use rio_t_preprocessors.Base.Time.{
  Time, Duration, before, after, minute, time_sub, abs_duration, wrap64,
}
use rio_t_preprocessors.Mhd.Model.{
  LiveRecord, TripDefinition, TripOccurrence, TripMatch, InstanceState,
}
use rio_t_preprocessors.Mhd.Store.{GtfsStore, definitions_for}

unfoldable pub contains_stop_id : List String → String → Bool
contains_stop_id [] target = false
contains_stop_id (stop_id ∷ rest) target =
    if stop_id == target then true else contains_stop_id rest target

unfoldable pub active_instance_matches : Dict String InstanceState → String → String → Time → Bool
active_instance_matches states uid vehicle_id source_time =
    if vehicle_id == "" then false else elim (lookup uid states) [
      | none ↦ false
      | some state ↦
          if not state.currently_active
          then false
          else if not (state.last_vehicle_id == vehicle_id)
          then false
          else if before source_time state.last_source_time
          then false
          else true
    ]

-- The `switch` over the drift from the observed departure, in minutes.
unfoldable pub drift_bonus : Duration → ℕ
drift_bonus drift =
    if not (ltb_ℤ (pos (2 * minute)) drift)
    then 60
    else if not (ltb_ℤ (pos (5 * minute)) drift)
    then 40
    else if not (ltb_ℤ (pos (10 * minute)) drift)
    then 20
    else 0

unfoldable pub same_service_date : (Time → ℕ × ℕ) → Time → Time → Bool
same_service_date local_day left right =
    let (left_year, left_day) = local_day left in
    let (right_year, right_day) = local_day right in
    left_year == right_year && left_day == right_day

-- The record's time lies in the occurrence, widened by the window at both ends.
unfoldable pub in_window : Duration → Time → TripOccurrence → Bool
in_window matching_window source_timestamp occurrence = not (
    before source_timestamp (occurrence.scheduled_start -ℤ matching_window)
    || after source_timestamp (occurrence.scheduled_end +ℤ matching_window))

module _ {F : Type 0} (local_day : Time → ℕ × ℕ) (states : Dict String InstanceState) where
  -- The bonus in minutes.
  unfoldable pub matching_bonus_minutes : TripDefinition F → TripOccurrence → LiveRecord F → ℕ
  matching_bonus_minutes candidate occurrence live =
      (if same_service_date local_day occurrence.service_date live.source_timestamp then 30 else 0)
      + (if not (live.service_id == "") && live.service_id == occurrence.service_id then 45 else 0)
      + (if live.observed_departure_valid
          then drift_bonus
              (abs_duration (time_sub occurrence.scheduled_start live.observed_departure_time))
          else 0)
      + (if not (live.final_stop_id == "") && live.final_stop_id == candidate.to_stop_id
          then 20
          else 0)
      + (if live.last_stop_id == ""
          then 0
          else (if contains_stop_id candidate.stop_ids live.last_stop_id then 10 else 0)
            + (if live.last_stop_id == candidate.from_stop_id
                  || live.last_stop_id == candidate.to_stop_id
                then 5
                else 0))
      + (if active_instance_matches states candidate.uid live.vehicle_runtime_id
            live.source_timestamp
          then 25
          else 0)

  unfoldable pub matching_bonus : TripDefinition F → TripOccurrence → LiveRecord F → Duration
  matching_bonus candidate occurrence live =
      pos (matching_bonus_minutes candidate occurrence live * minute)

  unfoldable pub score_of : TripDefinition F → TripOccurrence → LiveRecord F → Duration
  score_of candidate occurrence live =
      let distance = abs_duration (time_sub occurrence.scheduled_start live.source_timestamp) in
      let score = wrap64 (distance -ℤ matching_bonus candidate occurrence live) in
      if ltb_ℤ score (pos 0) then pos 0 else score

  module _ (matching_window : Duration) (live : LiveRecord F) where
    -- One round of the inner loop.
    unfoldable pub consider :
        TripDefinition F → Option (TripMatch F) → TripOccurrence → Option (TripMatch F)
    consider candidate best occurrence =
        let score = score_of candidate occurrence live in
        let new : TripMatch F = record {
          definition = candidate;
          occurrence = occurrence;
          score = score;
        } in
        if not (in_window matching_window live.source_timestamp occurrence)
        then best
        else elim best [
          | none ↦ some new
          | some b ↦ if ltb_ℤ score b.score then some new else some b
        ]

    unfoldable pub scan_occurrences :
        TripDefinition F → Option (TripMatch F) → List TripOccurrence → Option (TripMatch F)
    scan_occurrences candidate best [] = best
    scan_occurrences candidate best (occurrence ∷ rest) =
        scan_occurrences candidate (consider candidate best occurrence) rest

    unfoldable pub scan_candidates :
        Option (TripMatch F) → List (TripDefinition F) → Option (TripMatch F)
    scan_candidates best [] = best
    scan_candidates best (candidate ∷ rest) =
        scan_candidates (scan_occurrences candidate best candidate.occurrences) rest

    unfoldable pub match_live_record : GtfsStore F → Option (TripMatch F)
    match_live_record store =
        scan_candidates none (definitions_for store live.line_id live.live_route_id)
