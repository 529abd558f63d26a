-- ===== src/Commons/Utils/Tests.antt =====
-- backend/commons/src/sharedUtils on small inputs.
use rio_t_preprocessors.Base.{
  ℕ, ◌-◌, ◌^◌, true, String, string_eq, nat_eq, ◌==◌, if◌then◌else◌, none, some, [], ◌∷◌, ◌≡◌, refl,
}
use rio_t_preprocessors.Base.Text.{◌⧺◌, trim_space}
use rio_t_preprocessors.Commons.Utils.Values.{new_optional_of, flag_value, to_pointer}
use rio_t_preprocessors.Commons.Utils.Slices.{Fallible, returned, failed, e_map, set_mapped_or_fail}
use rio_t_preprocessors.Commons.Utils.Counters.{increment, decrement, run_calls, next_numbers}
use rio_t_preprocessors.Commons.Utils.ApiKeys.{
  compute_api_key_hash, is_plain, verifies, verify_api_key_hash-compute,
}
use rio_t_preprocessors.Commons.Utils.Services.{safe_label, upper_first}

-- A flag that is set without a value is true.
flag_set : to_pointer (flag_value (λ text. none) (new_optional_of "")) ≡ some true
unfolding flag_value to_pointer new_optional_of
flag_set = refl

-- The first error ends the loop.
abbrev nonzero : ℕ → Fallible ℕ ℕ
nonzero n = if n == 0 then failed n else returned n

mapped : e_map nonzero (1 ∷ 0 ∷ 2 ∷ []) ≡ failed 0
unfolding e_map set_mapped_or_fail
mapped = refl

-- Below zero the counter wraps around.
wrapped : run_calls (increment ∷ decrement ∷ decrement ∷ []) 0 ≡ 2 ^ 32 - 1
unfolding run_calls
wrapped = refl

numbered : next_numbers 0 3 ≡ 1 ∷ 2 ∷ 3 ∷ []
unfolding next_numbers
numbered = refl

labelled : safe_label (λ c. "A") " abc " "none" ≡ "Abc"
unfolding safe_label trim_space upper_first ◌⧺◌
labelled = refl

abbrev hash : String → String
hash text = "c0ffee"

plain_hash : (text : String) → is_plain (hash text) ≡ true
unfolding is_plain
plain_hash text = refl

plain_salt : is_plain "5a17" ≡ true
unfolding is_plain
plain_salt = refl

verify_api_key_hash-compute_example :
    verifies hash "key" (compute_api_key_hash hash (some "5a17") "key") ≡ true
verify_api_key_hash-compute_example =
    verify_api_key_hash-compute hash (some "5a17") "key" plain_hash plain_salt
