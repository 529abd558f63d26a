-- ===== src/Ndic/Xml.antt =====
-- What backend/ndic-preprocessor/src/parser.go uses of `encoding/xml`, on the tokens of a document.
-- Splitting the bytes into tokens is the library's; a decoder is the tokens still to come. A struct
-- with `xml:"a"` fields within `xml:"b"` fields takes the text of the elements at the path b, a.
pub mod Part
use rio_t_preprocessors.Base.{
  ℕ, zero, suc, ◌+◌, Bool, true, false, ◌<◌, String, string_eq, ◌==◌, if◌then◌else◌, Option, none,
  some, List, [], ◌∷◌, ◌≡◌, refl, arith, length,
}
use rio_t_preprocessors.Base.Text.{◌⧺◌}

-- `xml.Token`, with the local part of each name; `other_token` is a comment, a directive or a
-- processing instruction.
pub data Token : Type 0 where
  start_element : String → List (String × String) → Token
  end_element : String → Token
  char_data : String → Token
  other_token : Token

-- `token` in front of what comes before the end of an element.
unfoldable pub within : Token → Option (List Token × List Token) → Option (List Token × List Token)
within token none = none
within token (some (inner, rest)) = some (token ∷ inner, rest)

-- The tokens before the end of the element that is open, and those after it; `depth` counts the
-- elements opened inside. Without an end the document is malformed.
unfoldable pub split_element : ℕ → List Token → Option (List Token × List Token)
unfolding within
split_element depth [] = none
split_element depth (start_element name attributes ∷ rest) =
    within (start_element name attributes) (split_element (suc depth) rest)
split_element zero (end_element name ∷ rest) = some ([], rest)
split_element (suc depth) (end_element name ∷ rest) =
    within (end_element name) (split_element depth rest)
split_element depth (char_data text ∷ rest) = within (char_data text) (split_element depth rest)
split_element depth (other_token ∷ rest) = within other_token (split_element depth rest)

unfoldable pub same_path : List String → List String → Bool
same_path [] [] = true
same_path [] (b ∷ more) = false
same_path (a ∷ path) [] = false
same_path (a ∷ path) (b ∷ more) = let rest = same_path path more in if a == b then rest else false

abbrev parent : List String → List String
parent [] = []
parent (name ∷ above) = above

-- The texts of the elements at a path inside an element, in order. `above` holds the open elements,
-- the innermost first, as `path` does; `text` is what the current one has shown.
unfoldable pub field_texts : List String → List String → String → List Token → List String
unfolding same_path ◌⧺◌
field_texts path above text [] = []
field_texts path above text (start_element name attributes ∷ rest) =
    let opened = field_texts path (name ∷ above) "" rest in
    let nested = field_texts path (name ∷ above) text rest in
    if same_path path (name ∷ above) then opened else nested
field_texts path above text (end_element name ∷ rest) =
    let others = field_texts path (parent above) text rest in
    if same_path path above then text ∷ others else others
field_texts path above text (char_data more ∷ rest) =
    let taken = field_texts path above (text ⧺ more) rest in
    let others = field_texts path above text rest in if same_path path above then taken else others
field_texts path above text (other_token ∷ rest) = field_texts path above text rest

unfoldable pub last_text : String → List String → String
last_text found [] = found
last_text found (text ∷ texts) = last_text text texts

-- A string field of a struct: the last element at its path, or empty.
unfoldable pub string_field : List String → List Token → String
unfolding last_text field_texts
string_field path inner = last_text "" (field_texts path [] "" inner)

-- The character data directly inside the element, as `DecodeElement` into a string takes it.
unfoldable pub direct_text : ℕ → List Token → String
unfolding ◌⧺◌
direct_text depth [] = ""
direct_text depth (start_element name attributes ∷ rest) = direct_text (suc depth) rest
direct_text zero (end_element name ∷ rest) = direct_text zero rest
direct_text (suc depth) (end_element name ∷ rest) = direct_text depth rest
direct_text zero (char_data text ∷ rest) = text ⧺ direct_text zero rest
direct_text (suc depth) (char_data text ∷ rest) = direct_text (suc depth) rest
direct_text depth (other_token ∷ rest) = direct_text depth rest

sample : List Token
sample =
    char_data "a"
    ∷ start_element "b" []
    ∷ char_data "x"
    ∷ start_element "c" []
    ∷ char_data "y"
    ∷ end_element "c"
    ∷ char_data "z"
    ∷ end_element "b"
    ∷ char_data "d"
    ∷ []

field_tests :
    (string_field ("b" ∷ []) sample ≡ "xz")
    × (string_field ("c" ∷ "b" ∷ []) sample ≡ "y")
    × (string_field ("c" ∷ []) sample ≡ "")
    × (direct_text 0 sample ≡ "ad")
unfolding string_field direct_text sample
field_tests = (refl, refl, refl, refl)

within-shorter :
    (token : Token) (n : ℕ) (found : Option (List Token × List Token)) (inner rest : List Token)
    → ((inner rest : List Token) → found ≡ some (inner, rest) → length inner + length rest < n)
    → within token found ≡ some (inner, rest)
    → length inner + length rest < suc n
unfolding within
within-shorter token n none inner rest ih h = absurd (ground (arith, h))
within-shorter token n (some (i, r)) inner rest ih h = ground (arith, ih i r refl, h)

-- An element's content and what is left after it are shorter than what stood before.
pub split_element-shorter :
    (depth : ℕ) (tokens inner rest : List Token)
    → split_element depth tokens ≡ some (inner, rest)
    → length inner + length rest < length tokens
unfolding split_element
split_element-shorter depth [] inner rest h = absurd (ground (arith, h))
split_element-shorter depth (start_element name attributes ∷ tokens) inner rest h =
    within-shorter (start_element name attributes) (length tokens)
      (split_element (suc depth) tokens) inner rest (split_element-shorter (suc depth) tokens) h
split_element-shorter zero (end_element name ∷ tokens) inner rest h = ground (arith, h)
split_element-shorter (suc depth) (end_element name ∷ tokens) inner rest h =
    within-shorter (end_element name) (length tokens) (split_element depth tokens) inner rest
      (split_element-shorter depth tokens) h
split_element-shorter depth (char_data text ∷ tokens) inner rest h =
    within-shorter (char_data text) (length tokens) (split_element depth tokens) inner rest
      (split_element-shorter depth tokens) h
split_element-shorter depth (other_token ∷ tokens) inner rest h =
    within-shorter other_token (length tokens) (split_element depth tokens) inner rest
      (split_element-shorter depth tokens) h
