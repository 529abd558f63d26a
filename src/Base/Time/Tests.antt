-- ===== src/Base/Time/Tests.antt =====
-- Examples for the jittered times: the least and the greatest draw, and no jitter.
use rio_t_preprocessors.Base.{◌*◌, ◌+◌, ◌-◌, ◌≡◌, refl}
use rio_t_preprocessors.Base.Int.{pos, ◌+ℤ◌, ◌-ℤ◌}
use rio_t_preprocessors.Base.Time.{Time, Duration, second, millisecond, jitter_time}

abbrev base : Time
base = pos (100 * second)

abbrev half_a_second : Duration
half_a_second = pos (500 * millisecond)

jittered :
    (jitter_time 0 base half_a_second ≡ pos (100 * second - 500 * millisecond))
    × (jitter_time second base half_a_second ≡ pos (100 * second + 500 * millisecond))
    × (jitter_time 7 base (pos 0) ≡ base)
unfolding jitter_time ◌+ℤ◌ ◌-ℤ◌
jittered = (refl, refl, refl)
