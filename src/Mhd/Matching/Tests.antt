-- ===== src/Mhd/Matching/Tests.antt =====
-- Examples for the matching: two occurrences of the trip fit the record, the second one better.
use rio_t_preprocessors.Base.{◌*◌, ◌+◌, ◌-◌, ◌^◌, ◌<◌, ◌≤◌, [], ◌≡◌, arith}
use rio_t_preprocessors.Base.Int.{pos, pos_part, neg_part, ◌-ℤ◌}
use rio_t_preprocessors.Base.Time.{minute, time_sub}
use rio_t_preprocessors.Mhd.Store.{definitions_for}
use rio_t_preprocessors.Mhd.Matching.{matching_bonus_minutes, score_of, match_live_record}
use rio_t_preprocessors.Mhd.Matching.Choice.{IsBest, choices, match_live_record_lem}
use rio_t_preprocessors.Mhd.Matching.Score.{score_of_lem}
use rio_t_preprocessors.Mhd.Samples.{store, tram, late, seen_at, one_day}

match_live_record_lem_example :
    IsBest one_day []
      (pos (5 * minute))
      (seen_at "20")
      (match_live_record one_day [] (pos (5 * minute)) (seen_at "20") store)
      (choices (definitions_for store "1" "7"))
match_live_record_lem_example =
    match_live_record_lem one_day [] (pos (5 * minute)) (seen_at "20") store

no_overflow : neg_part (time_sub late.scheduled_start (seen_at "20").source_timestamp) < 2 ^ 63
unfolding time_sub ◌-ℤ◌
no_overflow = ground arith

score_of_lem_example :
    (matching_bonus_minutes one_day [] tram late (seen_at "20") ≤ 195)
    × (score_of one_day [] tram late (seen_at "20")
        ≡ pos (
            pos_part (time_sub late.scheduled_start (seen_at "20").source_timestamp)
            + neg_part (time_sub late.scheduled_start (seen_at "20").source_timestamp)
            - matching_bonus_minutes one_day [] tram late (seen_at "20") * minute))
score_of_lem_example = score_of_lem one_day [] tram late (seen_at "20") no_overflow
