-- ===== src/Ndic/Xml/Part.antt =====
-- What backend/ndic-preprocessor/src/parser.go reads of a document stands in the document.
use rio_t_preprocessors.Base.{
  ℕ, zero, suc, String, Option, none, some, List, [], ◌∷◌, ◌++◌, append-nil, append_assoc, ◌≡◌,
  refl, sym, ◌∙◌, arith,
}
use rio_t_preprocessors.Ndic.Xml.{
  Token, start_element, end_element, char_data, other_token, within, split_element,
}

-- The tokens of `part` stand in `whole`, one after the other.
abbrev pub IsWithin : List Token → List Token → Type 0
IsWithin part whole =
    (before : List Token) × (after : List Token) × (whole ≡ before ++ (part ++ after))

pub IsWithin-refl : (whole : List Token) → IsWithin whole whole
IsWithin-refl whole = ([], [], sym (append-nil whole))

pub IsWithin-trans : (a b c : List Token) → IsWithin a b → IsWithin b c → IsWithin a c
IsWithin-trans a b c (u, v, e) (x, y, h) = (x ++ u, v ++ y, h ∙ rw e (simp append_assoc refl))

pub IsWithin-tail :
    (token : Token) (rest whole : List Token) → IsWithin (token ∷ rest) whole → IsWithin rest whole
IsWithin-tail token rest whole =
    IsWithin-trans rest (token ∷ rest) whole (token ∷ [], [], rw (append-nil rest) refl)

-- The end of the element is between its content and what is left.
abbrev Parts : List Token → List Token → List Token → Type 0
Parts tokens inner rest = (name : String) × (tokens ≡ inner ++ (end_element name ∷ rest))

within-Parts :
    (token : Token) (tokens : List Token) (found : Option (List Token × List Token))
    (inner rest : List Token)
    → ((inner rest : List Token) → found ≡ some (inner, rest) → Parts tokens inner rest)
    → within token found ≡ some (inner, rest)
    → Parts (token ∷ tokens) inner rest
unfolding within
within-Parts token tokens none inner rest ih h = absurd (ground (arith, h))
within-Parts token tokens (some (i, r)) inner rest ih h =
    let (name, e) = ih i r refl in (name, ground (arith, e, h))

split_element-Parts :
    (depth : ℕ) (tokens inner rest : List Token)
    → split_element depth tokens ≡ some (inner, rest)
    → Parts tokens inner rest
unfolding split_element
split_element-Parts depth [] inner rest h = absurd (ground (arith, h))
split_element-Parts depth (start_element name attributes ∷ tokens) inner rest h =
    within-Parts (start_element name attributes) tokens (split_element (suc depth) tokens) inner
      rest (split_element-Parts (suc depth) tokens) h
split_element-Parts zero (end_element name ∷ tokens) inner rest h = (name, ground (arith, h))
split_element-Parts (suc depth) (end_element name ∷ tokens) inner rest h =
    within-Parts (end_element name) tokens (split_element depth tokens) inner rest
      (split_element-Parts depth tokens) h
split_element-Parts depth (char_data text ∷ tokens) inner rest h =
    within-Parts (char_data text) tokens (split_element depth tokens) inner rest
      (split_element-Parts depth tokens) h
split_element-Parts depth (other_token ∷ tokens) inner rest h =
    within-Parts other_token tokens (split_element depth tokens) inner rest
      (split_element-Parts depth tokens) h

pub split_element-IsWithin :
    (depth : ℕ) (tokens inner rest whole : List Token)
    → split_element depth tokens ≡ some (inner, rest)
    → IsWithin tokens whole
    → IsWithin inner whole × IsWithin rest whole
split_element-IsWithin depth tokens inner rest whole h inside =
    let (name, e) = split_element-Parts depth tokens inner rest h in
    (
      IsWithin-trans inner tokens whole ([], end_element name ∷ rest, e) inside,
      IsWithin-trans rest tokens whole
          (inner ++ (end_element name ∷ []), [], e ∙ simp (append_assoc, append-nil) refl) inside,
    )
