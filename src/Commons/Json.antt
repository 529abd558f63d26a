-- ===== src/Commons/Json.antt =====
-- Go's `encoding/json` on decoded texts. A `Value` is the tree that a JSON text stands for, and what
-- `json.Unmarshal` puts into an `interface{}`; `F` stands for its numbers. The members of an object
-- stand in the order of the text.
use Prim.Native.Char.{code}
use rio_t_preprocessors.Base.{
  ℕ, Bool, true, false, ◌&&◌, String, string_eq, nat_eq, ◌==◌, ◌-◌, leb, if◌then◌else◌, Option,
  none, some, List, [], ◌∷◌, elem, ◌≡◌, refl,
}

mutual
  pub data Value (F : Type 0) : Type 0 where
    null : Value F
    flag : Bool → Value F
    number : F → Value F
    text : String → Value F
    array : Values F → Value F
    object : Members F → Value F

  pub data Values (F : Type 0) : Type 0 where
    no_values : Values F
    value_and : Value F → Values F → Values F

  pub data Members (F : Type 0) : Type 0 where
    no_members : Members F
    member_and : String → Value F → Members F → Members F

-- The letters of a text without their case, as code points. Beyond the letters of ASCII only the two
-- characters that Unicode folds to such a letter matter, since every text that is compared with a
-- key here consists of letters of ASCII.
unfoldable pub fold_codes : String → List ℕ
fold_codes String.[] = []
fold_codes (String.◌∷◌ c s) =
    let rest = fold_codes s in
    let n = code c in
    (if leb 97 n && leb n 122
      then n - 32
      else if n == 0x212a
      then 75
      else if n == 0x17f
      then 83
      else n)
    ∷ rest

abbrev same_codes : List ℕ → List ℕ → Bool
same_codes [] [] = true
same_codes [] (n ∷ ns) = false
same_codes (m ∷ ms) [] = false
same_codes (m ∷ ms) (n ∷ ns) = m == n && same_codes ms ns

-- `strings.EqualFold`, where one of the texts has letters of ASCII only.
unfoldable pub equal_fold : String → String → Bool
unfolding fold_codes
equal_fold a b = same_codes (fold_codes a) (fold_codes b)

-- The field of a struct that a key of an object belongs to: the one of that name, or else the first
-- of that name but for case.
abbrev folded_field : List String → String → Option String
folded_field [] key = none
folded_field (name ∷ rest) key =
    let later = folded_field rest key in if equal_fold name key then some name else later

unfoldable pub field_for : List String → String → Option String
unfolding equal_fold
field_for names key = if elem key names then some key else folded_field names key

abbrev pub is_field : List String → String → String → Bool
is_field names name key = elim (field_for names key) [ none ↦ false | some found ↦ found == name ]

abbrev new_value {ℓ} :
    {F : Type 0} {A : Type ℓ} → (A → A) → (Value F → Option A) → A → Value F → Option A
new_value on_null decode value Value.null = some (on_null value)
new_value on_null decode value v = decode v

module _ {ℓ} {F : Type 0} {A : Type ℓ} (names : List String) (name : String) (on_null : A → A)
    (decode : Value F → Option A) where
  -- The value of one field after `json.Unmarshal` into a struct with these fields, from its value
  -- before: each member that belongs to the field sets it. `null` makes a pointer or a slice nil and
  -- leaves any other value. `none` stands for the error of a value that has another type.
  unfoldable pub read_field : A → Members F → Option A
  read_field value Members.no_members = some value
  read_field value (Members.member_and key v rest) =
      if is_field names name key
      then elim (new_value on_null decode value v) [ none ↦ none | some new ↦ read_field new rest ]
      else read_field value rest

-- `null` for a value that is neither a pointer nor a slice.
abbrev pub keep {ℓ} : {A : Type ℓ} → A → A
keep value = value

abbrev pub as_text : {F : Type 0} → Value F → Option String
as_text (Value.text s) = some s
as_text _ = none

abbrev pub as_flag : {F : Type 0} → Value F → Option Bool
as_flag (Value.flag b) = some b
as_flag _ = none

folds : (equal_fold "LineID" "lineid" ≡ true) × (equal_fold "LineID" "LinesID" ≡ false)
unfolding equal_fold
folds = (refl, refl)

abbrev with_text : Option String → Option (List String) → Option (List String)
with_text (some s) (some rest) = some (s ∷ rest)
with_text _ _ = none

-- The elements of a slice of texts; `null` is the empty text.
abbrev text_or_null : {F : Type 0} → Value F → Option String
text_or_null Value.null = some ""
text_or_null (Value.text s) = some s
text_or_null _ = none

unfoldable pub as_texts : {F : Type 0} → Values F → Option (List String)
as_texts Values.no_values = some []
as_texts (Values.value_and v rest) = with_text (text_or_null v) (as_texts rest)

abbrev pub as_text_slice : {F : Type 0} → Value F → Option (List String)
as_text_slice (Value.array vs) = as_texts vs
as_text_slice _ = none

unfoldable pub text_values : {F : Type 0} → List String → Values F
text_values [] = Values.no_values
text_values (s ∷ rest) = Values.value_and (Value.text s) (text_values rest)

pub as_texts-text_values :
    (F : Type 0) (texts : List String) → as_texts (text_values {F = F} texts) ≡ some texts
unfolding as_texts text_values
as_texts-text_values F [] = refl
as_texts-text_values F (s ∷ rest) = rw (as_texts-text_values F rest)
