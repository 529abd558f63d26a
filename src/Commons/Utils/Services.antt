-- ===== src/Commons/Utils/Services.antt =====
-- dsReadiness.go and the SafeLabel of strings.go of backend/commons/src/sharedUtils. A dial is given by
-- its answers, one for each second of waiting; the services are asked at the same time, and `order`
-- is the order in which those that fail are noted.
use rio_t_preprocessors.Base.{
  Bool, true, false, not, String, string_eq, ◌==◌, if◌then◌else◌, Option, none, some, List, [], ◌∷◌,
  ◌≡◌, refl, ◌∙◌, arith, any_b, all_b,
}
use rio_t_preprocessors.Base.Text.{◌⧺◌, trim_space, join}
use rio_t_preprocessors.Commons.Utils.Values.{Pair, get_first, ternary}

-- `isDSReady`: `dials` are the answers of the dials before the deadline.
unfoldable pub is_ds_ready : List Bool → Bool
is_ds_ready [] = false
is_ds_ready (connected ∷ rest) = let later = is_ds_ready rest in if connected then true else later

-- The identifiers that the goroutines append, in the order in which they take the lock.
unfoldable pub inaccessible :
    (Pair String String → List Bool) → List (Pair String String) → List String
inaccessible dials [] = []
inaccessible dials (pair ∷ rest) =
    let others = inaccessible dials rest in
    if not (is_ds_ready (dials pair)) then get_first pair ∷ others else others

abbrev has_none : List String → Bool
has_none [] = true
has_none (name ∷ rest) = false

-- `WaitForDSs`: the error, if there is one.
unfoldable pub wait_for_dss :
    (Pair String String → List Bool) → List (Pair String String) → Option String
wait_for_dss dials pairs =
    let failed = inaccessible dials pairs in
    ternary (has_none failed) none
      (some ("the following DSs are inaccessible: " ⧺ join failed ", "))

-- `strings.ToUpper` of a text and of its first character; a text here is never malformed.
unfoldable pub upper_first : (String → String) → String → String
upper_first to_upper String.[] = ""
upper_first to_upper (String.◌∷◌ c s) = to_upper (String.◌∷◌ c String.[]) ⧺ s

unfoldable pub safe_label : (String → String) → String → String → String
safe_label to_upper s fallback =
    let trimmed = trim_space s in if trimmed == "" then fallback else upper_first to_upper trimmed

abbrev pub is_fine : Option String → Bool
is_fine none = true
is_fine (some error) = false

-- Some dial before the deadline connected.
abbrev pub reached : List Bool → Bool
reached = any_b (λ connected. connected)

is_ds_ready-reached : (dials : List Bool) → is_ds_ready dials ≡ reached dials
unfolding is_ds_ready
is_ds_ready-reached [] = refl
is_ds_ready-reached (connected ∷ rest) = ground (arith, is_ds_ready-reached rest)

inaccessible-all_b :
    (dials : Pair String String → List Bool) (pairs : List (Pair String String))
    → has_none (inaccessible dials pairs) ≡ all_b (λ pair. reached (dials pair)) pairs
unfolding inaccessible
inaccessible-all_b dials [] = refl
inaccessible-all_b dials (pair ∷ rest) =
    ground (arith, inaccessible-all_b dials rest, is_ds_ready-reached (dials pair))

ternary-is_fine : (b : Bool) (error : String) → is_fine (ternary b none (some error)) ≡ b
unfolding ternary
ternary-is_fine true error = refl
ternary-is_fine false error = refl

-- There is no error exactly if every service was reached before its deadline.
pub wait_for_dss-is_fine :
    (dials : Pair String String → List Bool) (pairs : List (Pair String String))
    → is_fine (wait_for_dss dials pairs) ≡ all_b (λ pair. reached (dials pair)) pairs
unfolding wait_for_dss
wait_for_dss-is_fine dials pairs =
    let failed = inaccessible dials pairs in
    ternary-is_fine (has_none failed) ("the following DSs are inaccessible: " ⧺ join failed ", ")
    ∙ inaccessible-all_b dials pairs
