-- ===== src/Commons/Utils/Slices.antt =====
-- fpHelpers.go and slice.go of backend/commons/src/sharedUtils, against the library's functions on
-- lists. A function that may fail answers with a value or an error.
use rio_t_preprocessors.Base.{
  Bool, true, false, not, if◌then◌else◌, Option, none, some, List, [], ◌∷◌, ◌++◌, ◌≡◌, refl, sym,
  ◌∙◌, ap, arith, map, filter_b, any_b, append_assoc, append-nil, inl, inr, Bool-cases,
}
use rio_t_preprocessors.Commons.Utils.Values.{
  Optional, new_optional_of, new_empty_optional, to_pointer,
}

module _ {T : Type 0} where
  unfoldable pub find_first : T → (T → Bool) → List T → Optional T
  find_first zero predicate [] = new_empty_optional zero
  find_first zero predicate (item ∷ rest) =
      let later = find_first zero predicate rest in
      if predicate item then new_optional_of item else later

  unfoldable pub any_slice : (T → Bool) → List T → Bool
  any_slice predicate [] = false
  any_slice predicate (item ∷ rest) =
      let later = any_slice predicate rest in if predicate item then true else later

  unfoldable pub all_slice : (T → Bool) → List T → Bool
  all_slice predicate [] = true
  all_slice predicate (item ∷ rest) =
      let later = all_slice predicate rest in if not (predicate item) then false else later

  -- The loop of `Filter`, which appends to its target.
  unfoldable pub append_kept : (T → Bool) → List T → List T → List T
  append_kept predicate target [] = target
  append_kept predicate target (item ∷ rest) =
      append_kept predicate (if predicate item then target ++ item ∷ [] else target) rest

  unfoldable pub filter_slice : (T → Bool) → List T → List T
  unfolding append_kept
  filter_slice predicate source = append_kept predicate [] source

  abbrev head? : List T → Option T
  head? [] = none
  head? (item ∷ rest) = some item

module _ {T U : Type 0} where
  -- The loop of `Map`: `done` are the entries of the target that are set.
  unfoldable pub set_mapped : (T → U) → List U → List T → List U
  set_mapped f done [] = done
  set_mapped f done (item ∷ rest) = set_mapped f (done ++ f item ∷ []) rest

  unfoldable pub map_slice : (T → U) → List T → List U
  unfolding set_mapped
  map_slice f source = set_mapped f [] source

-- A value or an error.
pub data Fallible (U E : Type 0) : Type 0 where
  returned : U → Fallible U E
  failed : E → Fallible U E

module _ {T U E : Type 0} where
  -- The loop of `EMap`, which stops at the first error.
  unfoldable pub set_mapped_or_fail : (T → Fallible U E) → List U → List T → Fallible (List U) E
  set_mapped_or_fail f done [] = returned done
  set_mapped_or_fail f done (item ∷ rest) = elim (f item) [
    | returned result ↦ set_mapped_or_fail f (done ++ result ∷ []) rest
    | failed err ↦ failed err
  ]

  unfoldable pub e_map : (T → Fallible U E) → List T → Fallible (List U) E
  e_map f source = set_mapped_or_fail f [] source

module _ {S T : Type 0} where
  -- `ForEach`, whose consumer changes a state.
  unfoldable pub for_each : (T → S → S) → List T → S → S
  for_each consume [] state = state
  for_each consume (item ∷ rest) state = for_each consume rest (consume item state)

module _ {T : Type 0} where
  append_kept_lem :
      (p : T → Bool) (target source : List T)
      → append_kept p target source ≡ target ++ filter_b p source
  unfolding append_kept
  append_kept_lem p target [] = sym (append-nil target)
  append_kept_lem p target (item ∷ rest) = elim (Bool-cases (p item)) [
    | inl y ↦ rw y (
        append_kept_lem p (target ++ item ∷ []) rest
        ∙ append_assoc target (item ∷ []) (filter_b p rest))
    | inr n ↦ rw n (append_kept_lem p target rest)
  ]

  find_first-head :
      (zero : T) (p : T → Bool) (source : List T)
      → to_pointer (find_first zero p source) ≡ head? (filter_b p source)
  unfolding find_first to_pointer new_optional_of new_empty_optional
  find_first-head zero p [] = refl
  find_first-head zero p (item ∷ rest) = elim (Bool-cases (p item)) [
    | inl y ↦ rw y refl
    | inr n ↦ rw n (find_first-head zero p rest)
  ]

  any_slice-any_b : (p : T → Bool) (source : List T) → any_slice p source ≡ any_b p source
  unfolding any_slice
  any_slice-any_b p [] = refl
  any_slice-any_b p (item ∷ rest) = ground (arith, any_slice-any_b p rest)

  all_slice-any_b :
      (p : T → Bool) (source : List T)
      → all_slice p source ≡ not (any_b (λ item. not (p item)) source)
  unfolding all_slice
  all_slice-any_b p [] = refl
  all_slice-any_b p (item ∷ rest) = ground (arith, all_slice-any_b p rest)

  -- `Filter` keeps what passes, in order; `FindFirst` gives the first of that, `Any` tells whether
  -- there is one, and `All` whether nothing else is left out.
  pub filter_slice_lem :
      (zero : T) (p : T → Bool) (source : List T)
      → (filter_slice p source ≡ filter_b p source)
        × (to_pointer (find_first zero p source) ≡ head? (filter_slice p source))
        × (any_slice p source ≡ any_b p source)
        × (all_slice p source ≡ not (any_slice (λ item. not (p item)) source))
  unfolding filter_slice
  filter_slice_lem zero p source =
      let kept = append_kept_lem p [] source in
      (
        kept,
        find_first-head zero p source ∙ ap head? (sym kept),
        any_slice-any_b p source,
        all_slice-any_b p source ∙ ap not (sym (any_slice-any_b (λ item. not (p item)) source)),
      )

module _ {T U : Type 0} where
  set_mapped_lem :
      (f : T → U) (done : List U) (source : List T)
      → set_mapped f done source ≡ done ++ map f source
  unfolding set_mapped
  set_mapped_lem f done [] = sym (append-nil done)
  set_mapped_lem f done (item ∷ rest) =
      set_mapped_lem f (done ++ f item ∷ []) rest ∙ append_assoc done (f item ∷ []) (map f rest)

  pub map_slice_lem : (f : T → U) (source : List T) → map_slice f source ≡ map f source
  unfolding map_slice
  map_slice_lem f source = set_mapped_lem f [] source
