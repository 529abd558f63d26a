-- ===== src/Commons/Sets/Algebra.antt =====
-- Membership in the sets that the operations of set.go build, and their size.
use rio_t_preprocessors.Base.{
  Bool, true, false, ◌≡◌, List, [], ◌∷◌, Eq, ◌==◌, if◌then◌else◌, ltb, length, arith, not, ◌&&◌,
  ◌||◌, refl, Bool-cases, inl, inr, IsDistinct, elem, ◌↔◌, length-map,
}
use rio_t_preprocessors.Base.Maps.{keys, lookup, has-eq-elem, insert-IsDistinct}
use rio_t_preprocessors.Commons.Sets.{
  Set, new_set, add, remove, contains, add_all, from_slice, size, collect, search_loop,
  intersection, has_intersection, union, difference, to_slice, contains-add, contains-remove,
}

module _ {ℓ} {A : Type ℓ} ⦃e : Eq A⦄ where
  contains-new_set : (x : A) → contains (new_set {A = A}) x ≡ false
  unfolding contains new_set lookup
  contains-new_set x = refl

  elem-keys : (s : Set A) (x : A) → elem x (keys s.items) ≡ contains s x
  unfolding contains
  elem-keys s x = cc (has-eq-elem x s.items)

  contains-collect :
      (keep : A → Bool) (xs : List A) (acc : Set A) (x : A)
      → contains (collect keep xs acc) x ≡ (contains acc x || (elem x xs && keep x))
  contains-collect keep [] acc x = ground arith
  contains-collect keep (i ∷ xs) acc x = ground (
    arith,
    contains-collect keep xs (if keep i then add acc i else acc) x,
    contains-add acc i x,
    e.beq_iff i x,
  )

  -- Whichever of the two sets is smaller and is walked, the intersection has the items of both,
  -- the union those of either, the difference those of the first alone; deleting takes away one.
  pub contains_algebra :
      (s os : Set A) (x : A)
      → (contains (intersection s os) x ≡ (contains s x && contains os x))
        × (contains (union s os) x ≡ (contains s x || contains os x))
        × (contains (difference s os) x ≡ (contains s x && not (contains os x)))
        × ((a : A) → contains (remove s a) x ≡ (not (a == x) && contains s x))
  unfolding intersection union difference
  contains_algebra s os x = (
    ground (
      arith,
      contains-collect (contains s) (keys os.items) new_set x,
      contains-collect (contains os) (keys s.items) new_set x,
      contains-new_set x,
      elem-keys s x,
      elem-keys os x,
    ),
    ground (
      arith,
      contains-collect (λ _. true) (keys os.items) (collect (λ _. true) (keys s.items) new_set) x,
      contains-collect (λ _. true) (keys s.items) new_set x,
      contains-new_set x,
      elem-keys s x,
      elem-keys os x,
    ),
    ground (
      arith,
      contains-collect (λ i. not (contains os i)) (keys s.items) new_set x,
      contains-new_set x,
      elem-keys s x,
    ),
    λ a. contains-remove s a x,
  )

  search_loop-found :
      (p : A → Bool) (xs : List A) (x : A) → elem x xs ≡ true → p x ≡ true → search_loop p xs ≡ true
  search_loop-found p [] x h k = h
  search_loop-found p (i ∷ xs) x h k = ground (arith, search_loop-found p xs x, e.beq_iff i x)

  search_loop-witness :
      (p : A → Bool) (xs : List A)
      → search_loop p xs ≡ true
      → (x : A) × (elem x xs ≡ true) × (p x ≡ true)
  search_loop-witness p [] h = cc
  search_loop-witness p (i ∷ xs) h = elim (Bool-cases (p i)) [
    | inl y ↦ (i, ground (arith, e.beq_iff i i), y)
    | inr n ↦ let (x, m, k) = search_loop-witness p xs (rw n at h) in (x, ground arith, k)
  ]

  -- The test for a common item answers yes exactly if there is one.
  pub has_intersection_iff :
      (s os : Set A)
      → (has_intersection s os ≡ true) ↔ ((x : A) × (contains s x ≡ true) × (contains os x ≡ true))
  unfolding has_intersection
  has_intersection_iff s os = elim (Bool-cases (ltb (size os) (size s))) [
    | inl larger ↦ rw larger (
      λ h.
          let (x, m, k) = search_loop-witness (contains s) (keys os.items) h in
          (x, k, rw (← elem-keys os x) m),
      λ h. search_loop-found (contains s) (keys os.items) h.0 (rw (elem-keys os h.0) h.2) h.1,
    )
    | inr smaller ↦ rw smaller (
      λ h.
          let (x, m, k) = search_loop-witness (contains os) (keys s.items) h in
          (x, rw (← elem-keys s x) m, k),
      λ h. search_loop-found (contains os) (keys s.items) h.0 (rw (elem-keys s h.0) h.1) h.2,
    )
  ]

  add_all-contains :
      (xs : List A) (s : Set A) (x : A) → contains (add_all s xs) x ≡ (contains s x || elem x xs)
  add_all-contains [] s x = ground arith
  add_all-contains (i ∷ xs) s x =
      ground (arith, add_all-contains xs (add s i) x, contains-add s i x)

  add_all-IsDistinct :
      (xs : List A) (s : Set A) → IsDistinct (keys s.items) → IsDistinct (keys (add_all s xs).items)
  unfolding add
  add_all-IsDistinct [] s h = h
  add_all-IsDistinct (i ∷ xs) s h =
      add_all-IsDistinct xs (add s i) (insert-IsDistinct i tt s.items h)

  -- A set made from a slice holds exactly the items of the slice, each once, however often the
  -- slice repeats them; `ToSlice` gives them back, and `Size` counts them.
  pub from_slice_lem :
      (xs : List A)
      → ((x : A) → elem x (to_slice (from_slice xs)) ≡ elem x xs)
        × IsDistinct (to_slice (from_slice xs))
        × (length (to_slice (from_slice xs)) ≡ size (from_slice xs))
  unfolding to_slice from_slice size
  from_slice_lem xs = (
    λ x. cc (elem-keys (add_all new_set xs) x, add_all-contains xs new_set x, contains-new_set x),
    add_all-IsDistinct xs new_set (unfold new_set in tt),
    length-map (add_all new_set xs).items (λ e. e.0),
  )
