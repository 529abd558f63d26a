-- ===== src/Base/Text.antt =====
-- The part of Go's `strings` and `fmt` that the program uses, on texts as sequences of code points.
use Prim.Native.Char.{code}
use rio_t_preprocessors.Base.{
  ℕ, Bool, true, false, ◌&&◌, ◌||◌, String, string_eq, nat_eq, ◌==◌, leb, if◌then◌else◌, ◌≡◌, refl,
  List, [], ◌∷◌, ap,
}

-- `unicode.IsSpace`.
unfoldable pub is_space : ℕ → Bool
is_space c =
    (leb 9 c && leb c 13)
    || c == 32
    || c == 0x85
    || c == 0xA0
    || c == 0x1680
    || (leb 0x2000 c && leb c 0x200a)
    || c == 0x2028
    || c == 0x2029
    || c == 0x202f
    || c == 0x205f
    || c == 0x3000

-- `strings.TrimLeftFunc(s, unicode.IsSpace)`.
unfoldable pub trim_left : String → String
unfolding is_space
trim_left String.[] = ""
trim_left (String.◌∷◌ c s) =
    let rest = trim_left s in if is_space (code c) then rest else String.◌∷◌ c s

-- `strings.TrimRightFunc(s, unicode.IsSpace)`.
unfoldable pub trim_right : String → String
unfolding is_space
trim_right String.[] = ""
trim_right (String.◌∷◌ c s) =
    let rest = trim_right s in if rest == "" && is_space (code c) then "" else String.◌∷◌ c rest

-- `strings.TrimSpace`.
unfoldable pub trim_space : String → String
unfolding trim_left trim_right
trim_space s = trim_right (trim_left s)

-- `s + t`.
infixr 66 ◌⧺◌
unfoldable pub ◌⧺◌ : String → String → String
String.[] ⧺ t = t
String.◌∷◌ c s ⧺ t = String.◌∷◌ c (s ⧺ t)

-- `strings.Join`.
unfoldable pub join : List String → String → String
unfolding ◌⧺◌
join [] sep = ""
join (s ∷ []) sep = s
join (s ∷ t ∷ rest) sep = s ⧺ sep ⧺ join (t ∷ rest) sep

-- `strings.Split` at each colon.
abbrev add_first : String → List String → List String
add_first c [] = c ∷ []
add_first c (part ∷ parts) = (c ⧺ part) ∷ parts

unfoldable pub split_colons : String → List String
split_colons String.[] = "" ∷ []
split_colons (String.◌∷◌ c s) =
    let rest = split_colons s in
    if code c == 58 then "" ∷ rest else add_first (String.◌∷◌ c String.[]) rest

-- `strings.HasPrefix` and `strings.Contains`
abbrev pub has_prefix : String → String → Bool
has_prefix s String.[] = true
has_prefix String.[] (String.◌∷◌ c prefix) = false
has_prefix (String.◌∷◌ d s) (String.◌∷◌ c prefix) =
    String.◌∷◌ d String.[] == String.◌∷◌ c String.[] && has_prefix s prefix

unfoldable pub contains_text : String → String → Bool
contains_text String.[] part = has_prefix String.[] part
contains_text (String.◌∷◌ c s) part = has_prefix (String.◌∷◌ c s) part || contains_text s part

contains_tests : (contains_text "ab/cd" "b/c" ≡ true) × (contains_text "text/xml" "json" ≡ false)
unfolding contains_text
contains_tests = (refl, refl)

trim_tests :
    (trim_space " ab c\t" ≡ "ab c") × (trim_space "  " ≡ "") × (join ("a" ∷ "b" ∷ []) "_" ≡ "a_b")
unfolding trim_space join
trim_tests = (refl, refl, refl)

tail_text : String → String
tail_text String.[] = ""
tail_text (String.◌∷◌ c s) = s

pub ⧺-cancel_left : (p s t : String) → p ⧺ s ≡ p ⧺ t → s ≡ t
unfolding ◌⧺◌ tail_text
⧺-cancel_left String.[] s t h = h
⧺-cancel_left (String.◌∷◌ c p) s t h = ⧺-cancel_left p s t (ap tail_text h)
