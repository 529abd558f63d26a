-- ===== src/Base/Time.antt =====
-- Go's `time.Time` and `time.Duration`: a whole number of nanoseconds, counted for a time from
-- January 1 of the year 1 UTC, which is the zero `time.Time`.
mod Tests
use rio_t_preprocessors.Base.{
  ℕ, ◌-◌, ◌^◌, ltb, leb, Bool, nat_eq, ◌<◌, ◌==◌, arith, ◌+◌, ◌*◌, ◌%◌, if◌then◌else◌, not,
}
use native.Mathlib.Nat.{mod-lt}
use rio_t_preprocessors.Base.Int.{
  ℤ, pos, negsuc, pos_part, neg_part, ltb_ℤ, ◌+ℤ◌, ◌-ℤ◌, ◌≤ℤ◌, +ℤ_parts, -ℤ_parts,
}

abbrev pub Time : Type 0
Time = ℤ

abbrev pub Duration : Type 0
Duration = ℤ

abbrev pub zero_time : Time
zero_time = pos 0

-- `t.IsZero()`
unfoldable pub is_zero : Time → Bool
is_zero t = pos_part t + neg_part t == 0

-- `t.Before(u)`, `t.After(u)`
abbrev pub before : Time → Time → Bool
before t u = ltb_ℤ t u

abbrev pub after : Time → Time → Bool
after t u = ltb_ℤ u t

abbrev pub millisecond : ℕ
millisecond = 1000000

abbrev pub second : ℕ
second = 1000000000

abbrev pub minute : ℕ
minute = 60000000000

-- `d` as an `int64`, which wraps around once at either end.
unfoldable pub wrap64 : ℤ → Duration
wrap64 d =
    if leb (2 ^ 63) (pos_part d)
    then d -ℤ pos (2 ^ 64)
    else if ltb (2 ^ 63) (neg_part d)
    then d +ℤ pos (2 ^ 64)
    else d

-- `t.Sub(u)`, which stops at the least and at the greatest duration.
unfoldable pub time_sub : Time → Time → Duration
time_sub t u =
    let d = t -ℤ u in
    if leb (2 ^ 63) (pos_part d)
    then pos (2 ^ 63 - 1)
    else if ltb (2 ^ 63) (neg_part d)
    then negsuc (2 ^ 63 - 1)
    else d

-- `if d < 0 { d = -d }`; the least duration is its own negative.
unfoldable pub abs_duration : Duration → Duration
unfolding wrap64
abs_duration d = if ltb_ℤ d (pos 0) then wrap64 (pos 0 -ℤ d) else d

-- `jitterTime` of the MHD and the NDIC preprocessor; `draw` is the random number behind
-- `rand.Int63n`.
unfoldable pub jitter_time : ℕ → Time → Duration → Time
jitter_time draw base max_jitter =
    if not (ltb_ℤ (pos 0) max_jitter)
    then base
    else base +ℤ (pos (draw % (2 * pos_part max_jitter + 1)) -ℤ max_jitter)

-- Where `max_jitter` is not negative, the jittered time is at most that far from its base, on either
-- side.
pub jitter_time_bounds :
    (draw : ℕ) (base : Time) (max_jitter : Duration)
    → pos 0 ≤ℤ max_jitter
    → (base -ℤ max_jitter ≤ℤ jitter_time draw base max_jitter)
      × (jitter_time draw base max_jitter ≤ℤ base +ℤ max_jitter)
unfolding jitter_time
jitter_time_bounds draw base (pos n) h =
    let k = 2 * n + 1 in
    let d = pos (draw % k) -ℤ pos n in
    let r : draw % k < k = mod-lt draw (omega arith) in
    ground (
      arith,
      r,
      -ℤ_parts (pos (draw % k)) (pos n),
      +ℤ_parts base d,
      -ℤ_parts base (pos n),
      +ℤ_parts base (pos n),
    )
jitter_time_bounds draw base (negsuc n) h = absurd (omega arith)
