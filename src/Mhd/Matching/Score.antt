-- ===== src/Mhd/Matching/Score.antt =====
-- The score of a match, which is computed on durations of 64 bits.
use rio_t_preprocessors.Base.{
  ℕ, Bool, true, false, ◌+◌, ◌-◌, if◌then◌else◌, ◌*◌, ◌≤◌, ◌<◌, ◌^◌, String, ◌≡◌, arith,
}
use rio_t_preprocessors.Base.Int.{pos, negsuc, pos_part, neg_part, ltb_ℤ, ◌-ℤ◌}
use rio_t_preprocessors.Base.Maps.{Dict}
use rio_t_preprocessors.Base.Time.{Time, Duration, minute, time_sub, abs_duration, wrap64}
use rio_t_preprocessors.Mhd.Model.{LiveRecord, TripDefinition, TripOccurrence, InstanceState}
use rio_t_preprocessors.Mhd.Matching.{drift_bonus, matching_bonus_minutes, matching_bonus, score_of}

drift_bonus-le : (d : Duration) → drift_bonus d ≤ 60
unfolding drift_bonus
drift_bonus-le d = ground arith

time_sub-bounds :
    (t u : Time) → (pos_part (time_sub t u) < 2 ^ 63) × (neg_part (time_sub t u) ≤ 2 ^ 63)
unfolding time_sub
time_sub-bounds t u = ground arith

wrap64_inside : (d : Duration) → pos_part d < 2 ^ 63 → neg_part d ≤ 2 ^ 63 → wrap64 d ≡ d
unfolding wrap64
wrap64_inside d h k = ground arith

abs_duration-bounds :
    (d : Duration)
    → pos_part d < 2 ^ 63
    → neg_part d < 2 ^ 63
    → (abs_duration d ≡ pos (pos_part d + neg_part d)) × (pos_part d + neg_part d < 2 ^ 63)
unfolding abs_duration ◌-ℤ◌
abs_duration-bounds (pos n) h k = (ground arith, omega (arith, h))
abs_duration-bounds (negsuc n) h k = (ground arith, omega (arith, k))

abbrev clip : Duration → Duration
clip d = if ltb_ℤ d (pos 0) then pos 0 else d

-- On ℕ, where a subtraction stops at 0.
clip_lem : (m n : ℕ) → m < 2 ^ 63 → n ≤ 2 ^ 62 → clip (wrap64 (pos m -ℤ pos n)) ≡ pos (m - n)
unfolding wrap64 ◌-ℤ◌
clip_lem m n h k = ground arith

if-le : (b : Bool) (n m k : ℕ) → n ≤ k → m ≤ k → (if b then n else m) ≤ k
if-le true n m k h l = h
if-le false n m k h l = l

-- The bonus part by part.
parts-le :
    (same_day same_service observed : Bool) (minutes : ℕ)
    (same_end no_stop on_trip at_end same_vehicle : Bool)
    → minutes ≤ 60
    → (if same_day then 30 else 0)
        + (if same_service then 45 else 0)
        + (if observed then minutes else 0)
        + (if same_end then 20 else 0)
        + (if no_stop then 0 else (if on_trip then 10 else 0) + (if at_end then 5 else 0))
        + (if same_vehicle then 25 else 0)
      ≤ 195
parts-le a b c d e f g h i l =
    let stops : (if g then 10 else 0) + (if h then 5 else 0) ≤ 15 = omega (
      arith,
      if-le g 10 0 10 (omega arith) (omega arith),
      if-le h 5 0 5 (omega arith) (omega arith),
    ) in
    omega (
      arith,
      if-le a 30 0 30 (omega arith) (omega arith),
      if-le b 45 0 45 (omega arith) (omega arith),
      if-le c d 0 60 l (omega arith),
      if-le e 20 0 20 (omega arith) (omega arith),
      if-le f 0 ((if g then 10 else 0) + (if h then 5 else 0)) 15 (omega arith) stops,
      if-le i 25 0 25 (omega arith) (omega arith),
    )

module _ {F : Type 0} (local_day : Time → ℕ × ℕ) (states : Dict String InstanceState)
    (candidate : TripDefinition F) (occurrence : TripOccurrence) (live : LiveRecord F) where
  matching_bonus_minutes-le :
      matching_bonus_minutes local_day states candidate occurrence live ≤ 195
  unfolding matching_bonus_minutes
  matching_bonus_minutes-le = parts-le _ _ _ _ _ _ _ _ _ (
      drift_bonus-le
        (abs_duration (time_sub occurrence.scheduled_start live.observed_departure_time)))

  abbrev drift : Duration
  drift = time_sub occurrence.scheduled_start live.source_timestamp

  -- Unless the two times are about 292 years apart, the score is exactly the distance between them in
  -- nanoseconds less the bonus of so many minutes, or zero where the bonus is larger: the bonus is at
  -- most 195 minutes, and nothing overflows.
  pub score_of_lem :
      neg_part drift < 2 ^ 63
      → let minutes = matching_bonus_minutes local_day states candidate occurrence live in
        (minutes ≤ 195)
        × (score_of local_day states candidate occurrence live
            ≡ pos (pos_part drift + neg_part drift - minutes * minute))
  unfolding score_of matching_bonus
  score_of_lem h =
      let (e, bound) = abs_duration-bounds drift (time_sub-bounds _ _).0 h in
      let minutes = matching_bonus_minutes local_day states candidate occurrence live in
      let clipped =
        clip_lem (pos_part drift + neg_part drift) (minutes * minute) bound
          (omega (arith, matching_bonus_minutes-le)) in
      (matching_bonus_minutes-le, rw e clipped)
