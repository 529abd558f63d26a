-- ===== src/Base/Strconv.antt =====
-- Go's `strconv.Atoi` and `strings.CutPrefix`, on texts as sequences of code points.
use Prim.Native.Char.{code}
use rio_t_preprocessors.Base.{
  ℕ, ◌+◌, ◌-◌, ◌*◌, ◌^◌, ◌&&◌, leb, ltb, String, Option, none, some, ◌==◌, nat_eq, if◌then◌else◌,
  ◌≡◌, refl,
}
use rio_t_preprocessors.Base.Int.{ℤ, pos, ◌-ℤ◌}

-- The value of decimal digits after those that make `value`; another code point makes it fail.
unfoldable pub digits_value : ℕ → String → Option ℕ
digits_value value String.[] = some value
digits_value value (String.◌∷◌ c s) =
    let rest = digits_value (10 * value + (code c - 48)) s in
    if leb 48 (code c) && leb (code c) 57 then rest else none

-- At least one digit.
unfoldable pub magnitude : String → Option ℕ
unfolding digits_value
magnitude String.[] = none
magnitude (String.◌∷◌ c s) = digits_value 0 (String.◌∷◌ c s)

-- A value outside `int` is an error.
unfoldable pub positive : Option ℕ → Option ℤ
positive none = none
positive (some n) = if ltb n (2 ^ 63) then some (pos n) else none

unfoldable pub negative : Option ℕ → Option ℤ
negative none = none
negative (some n) = if leb n (2 ^ 63) then some (pos 0 -ℤ pos n) else none

-- `strconv.Atoi`
unfoldable pub atoi : String → Option ℤ
unfolding magnitude positive negative
atoi String.[] = none
atoi (String.◌∷◌ c s) =
    if code c == 43
    then positive (magnitude s)
    else if code c == 45
    then negative (magnitude s)
    else positive (magnitude (String.◌∷◌ c s))

-- `strings.TrimPrefix`, where `strings.HasPrefix` holds.
unfoldable pub cut_prefix : String → String → Option String
cut_prefix String.[] s = some s
cut_prefix (String.◌∷◌ c p) String.[] = none
cut_prefix (String.◌∷◌ c p) (String.◌∷◌ d s) =
    let rest = cut_prefix p s in if code c == code d then rest else none

atoi_tests :
    (atoi "120" ≡ some (pos 120))
    × (atoi "-7" ≡ some (pos 0 -ℤ pos 7))
    × (atoi "+7" ≡ some (pos 7))
    × (atoi "1 2" ≡ none)
    × (atoi "" ≡ none)
    × (cut_prefix "level" "level3" ≡ some "3")
    × (cut_prefix "level" "lev" ≡ none)
unfolding atoi cut_prefix
atoi_tests = (refl, refl, refl, refl, refl, refl, refl)
