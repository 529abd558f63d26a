-- ===== src/Commons/Utils/ApiKeys.antt =====
-- apiKey.go of backend/commons/src/sharedUtils. `hash` is SHA-256 in hexadecimal, and `random` the
-- salt in hexadecimal that the random source gives, if it gives one.
use rio_t_preprocessors.Base.{
  Bool, true, false, not, String, string_eq, nat_eq, ◌==◌, if◌then◌else◌, Option, none, some, List,
  [], ◌∷◌, ◌≡◌, refl, arith, elem, any_b, ◌&&◌, beq_self, inl, inr, Bool-cases, map,
}
use rio_t_preprocessors.Base.Text.{◌⧺◌, split_colons}
use Prim.Native.Char.{code}

unfoldable pub compute_api_key_hash : (String → String) → Option String → String → Option String
compute_api_key_hash hash none raw_key = none
compute_api_key_hash hash (some salt) raw_key = some (salt ⧺ ":" ⧺ hash (salt ⧺ ":" ⧺ raw_key))

unfoldable pub verify_parts : (String → String) → String → List String → Bool
verify_parts hash raw_key (salt ∷ expected ∷ []) = hash (salt ⧺ ":" ⧺ raw_key) == expected
verify_parts hash raw_key _ = false

unfoldable pub verify_api_key_hash : (String → String) → String → String → Bool
verify_api_key_hash hash raw_key stored = verify_parts hash raw_key (split_colons stored)

-- The first of the requested permissions that is not among those allowed.
unfoldable pub validate_permissions :
    {T : Type 0} → (T → String) → List T → List String → Option String
validate_permissions extract_uid permissions [] = none
validate_permissions extract_uid permissions (p ∷ requested) =
    let later = validate_permissions extract_uid permissions requested in
    if not (elem p (map extract_uid permissions)) then some p else later

-- A text without a colon.
unfoldable pub is_plain : String → Bool
is_plain String.[] = true
is_plain (String.◌∷◌ c s) = let rest = is_plain s in if code c == 58 then false else rest

split_colons-plain : (s : String) → is_plain s ≡ true → split_colons s ≡ s ∷ []
unfolding split_colons is_plain ◌⧺◌
split_colons-plain String.[] h = refl
split_colons-plain (String.◌∷◌ c s) h = elim (Bool-cases (code c == 58)) [
  | inl y ↦ absurd (ground (arith, h, y))
  | inr n ↦ rw (n, split_colons-plain s (ground (arith, h, n))) refl
]

split_colons-joined :
    (salt h : String) → is_plain salt ≡ true → split_colons (salt ⧺ ":" ⧺ h) ≡ salt ∷ split_colons h
unfolding split_colons is_plain ◌⧺◌
split_colons-joined String.[] h p = refl
split_colons-joined (String.◌∷◌ c s) h p = elim (Bool-cases (code c == 58)) [
  | inl y ↦ absurd (ground (arith, p, y))
  | inr n ↦ rw (n, split_colons-joined s h (ground (arith, p, n))) refl
]

abbrev pub verifies : (String → String) → String → Option String → Bool
verifies hash raw_key none = true
verifies hash raw_key (some stored) = verify_api_key_hash hash raw_key stored

-- A key verifies against the hash that was computed for it, whatever the salt. Hexadecimal texts
-- have no colon.
pub verify_api_key_hash-compute :
    (hash : String → String) (random : Option String) (raw_key : String)
    → ((text : String) → is_plain (hash text) ≡ true)
    → (elim random [ none ↦ true | some salt ↦ is_plain salt ]) ≡ true
    → verifies hash raw_key (compute_api_key_hash hash random raw_key) ≡ true
unfolding verify_api_key_hash verify_parts compute_api_key_hash
verify_api_key_hash-compute hash none raw_key plain salted = refl
verify_api_key_hash-compute hash (some salt) raw_key plain salted =
    let h = hash (salt ⧺ ":" ⧺ raw_key) in
    rw (split_colons-joined salt h salted, split_colons-plain h (plain (salt ⧺ ":" ⧺ raw_key)))
      (beq_self h)

abbrev is_refused : List String → String → Bool
is_refused allowed p = not (elem p allowed)

-- Whether an answer fits what is allowed and requested.
abbrev pub is_right_answer : List String → List String → Option String → Bool
is_right_answer allowed requested none = not (any_b (is_refused allowed) requested)
is_right_answer allowed requested (some p) = is_refused allowed p && elem p requested

is_right_answer-cons :
    (allowed requested : List String) (p : String) (answer : Option String)
    → is_refused allowed p ≡ false
    → is_right_answer allowed requested answer ≡ true
    → is_right_answer allowed (p ∷ requested) answer ≡ true
is_right_answer-cons allowed requested p none n h = ground (arith, n, h)
is_right_answer-cons allowed requested p (some q) n h = ground (arith, n, h)

-- Permissions are granted exactly if each one requested is among those of the user; otherwise the
-- error names one that is requested and not allowed.
pub validate_permissions-is_right_answer :
    {T : Type 0} (extract_uid : T → String) (permissions : List T) (requested : List String)
    → is_right_answer
        (map extract_uid permissions)
        requested
        (validate_permissions extract_uid permissions requested)
      ≡ true
unfolding validate_permissions
validate_permissions-is_right_answer extract_uid permissions [] = refl
validate_permissions-is_right_answer extract_uid permissions (p ∷ requested) =
    let allowed = map extract_uid permissions in
    elim (Bool-cases (is_refused allowed p)) [
      | inl y ↦ rw y (ground (arith, y, beq_self p))
      | inr n ↦ rw n (
          is_right_answer-cons allowed requested p
            (validate_permissions extract_uid permissions requested) n
            (validate_permissions-is_right_answer extract_uid permissions requested))
    ]
