-- ===== src/Commons/Sets/Tests.antt =====
-- Examples for the properties of set.go.
use rio_t_preprocessors.Base.{not, ◌&&◌, ◌||◌, ℕ, nat_eq, ◌==◌, ◌≡◌, [], ◌∷◌}
use rio_t_preprocessors.Commons.Sets.{
  Set, remove, contains, from_slice, intersection, union, difference,
}
use rio_t_preprocessors.Commons.Sets.Algebra.{contains_algebra}

abbrev few : Set ℕ
few = from_slice (1 ∷ 2 ∷ [])

abbrev more : Set ℕ
more = from_slice (2 ∷ 3 ∷ 5 ∷ [])

contains_algebra_example :
    (contains (intersection few more) 2 ≡ (contains few 2 && contains more 2))
    × (contains (union few more) 2 ≡ (contains few 2 || contains more 2))
    × (contains (difference few more) 2 ≡ (contains few 2 && not (contains more 2)))
    × ((a : ℕ) → contains (remove few a) 2 ≡ (not (a == 2) && contains few 2))
contains_algebra_example = contains_algebra few more 2
