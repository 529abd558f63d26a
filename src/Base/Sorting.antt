-- ===== src/Base/Sorting.antt =====
-- Go's `sort.SliceStable`, and what it keeps of a list.
use rio_t_preprocessors.Base.{
  ℕ, ◌≤◌, ltb, Bool, false, ◌||◌, List, [], ◌∷◌, any_b, elem, IsDistinct, All, Eq, ◌==◌,
  if◌then◌else◌, ◌≡◌, refl, arith, Bool-cases, inl, inr,
}

-- Each item goes before the first that it may not follow.
module _ {ℓ} {A : Type ℓ} (less : A → A → Bool) where
  unfoldable pub insert_sorted : A → List A → List A
  insert_sorted x [] = x ∷ []
  insert_sorted x (y ∷ ys) =
      let rest = insert_sorted x ys in if less y x then y ∷ rest else x ∷ y ∷ ys

  unfoldable pub sort_stable : List A → List A
  sort_stable [] = []
  sort_stable (x ∷ xs) = insert_sorted x (sort_stable xs)

  any_b-insert_sorted :
      (p : A → Bool) (x : A) (xs : List A) → any_b p (insert_sorted x xs) ≡ (p x || any_b p xs)
  unfolding insert_sorted
  any_b-insert_sorted p x [] = refl
  any_b-insert_sorted p x (y ∷ ys) = ground (arith, any_b-insert_sorted p x ys)

  pub any_b-sort_stable : (p : A → Bool) (xs : List A) → any_b p (sort_stable xs) ≡ any_b p xs
  unfolding sort_stable
  any_b-sort_stable p [] = refl
  any_b-sort_stable p (x ∷ xs) =
      ground (arith, any_b-sort_stable p xs, any_b-insert_sorted p x (sort_stable xs))

module _ {ℓ} {A : Type ℓ} ⦃e : Eq A⦄ (less : A → A → Bool) where
  insert_sorted-IsDistinct :
      (x : A) (xs : List A)
      → elem x xs ≡ false
      → IsDistinct xs
      → IsDistinct (insert_sorted less x xs)
  unfolding insert_sorted
  insert_sorted-IsDistinct x [] h d = (refl, record {})
  insert_sorted-IsDistinct x (y ∷ ys) h (fresh, d) = elim (Bool-cases (less y x)) [
    | inl t ↦ rw t (
      ground (
        arith,
        h,
        fresh,
        e.beq_iff y x,
        e.beq_iff x y,
        any_b-insert_sorted less (λ z. z == y) x ys,
      ),
      insert_sorted-IsDistinct x ys (ground (arith, h)) d,
    )
    | inr f ↦ rw f (h, (fresh, d))
  ]

  pub sort_stable-IsDistinct : (xs : List A) → IsDistinct xs → IsDistinct (sort_stable less xs)
  unfolding sort_stable
  sort_stable-IsDistinct [] d = record {}
  sort_stable-IsDistinct (x ∷ xs) (fresh, d) =
      insert_sorted-IsDistinct x (sort_stable less xs)
        (ground (arith, fresh, any_b-sort_stable less (λ z. z == x) xs))
        (sort_stable-IsDistinct xs d)

module _ {ℓ} {A : Type ℓ} (rank : A → ℕ) where
  -- Each item is of no higher rank than those after it.
  abbrev pub IsSortedBy : List A → Type ℓ
  IsSortedBy [] = Unit
  IsSortedBy (x ∷ xs) = All (λ (y : A). rank x ≤ rank y) xs × IsSortedBy xs

  abbrev pub lower_rank : A → A → Bool
  lower_rank a b = ltb (rank a) (rank b)

  insert_sorted-All :
      (n : ℕ) (x : A) (xs : List A)
      → n ≤ rank x
      → All (λ (y : A). n ≤ rank y) xs
      → All (λ (y : A). n ≤ rank y) (insert_sorted lower_rank x xs)
  unfolding insert_sorted
  insert_sorted-All n x [] h all = (h, record {})
  insert_sorted-All n x (y ∷ ys) h (first, all) = elim (Bool-cases (ltb (rank y) (rank x))) [
    | inl t ↦ rw t (first, insert_sorted-All n x ys h all)
    | inr f ↦ rw f (h, (first, all))
  ]

  All-weaken :
      (n m : ℕ) (xs : List A)
      → n ≤ m
      → All (λ (y : A). m ≤ rank y) xs
      → All (λ (y : A). n ≤ rank y) xs
  All-weaken n m [] h all = record {}
  All-weaken n m (x ∷ xs) h (first, all) = (omega (arith, h, first), All-weaken n m xs h all)

  insert_sorted-IsSortedBy :
      (x : A) (xs : List A) → IsSortedBy xs → IsSortedBy (insert_sorted lower_rank x xs)
  unfolding insert_sorted
  insert_sorted-IsSortedBy x [] sorted = (record {}, record {})
  insert_sorted-IsSortedBy x (y ∷ ys) (above, sorted) = elim (Bool-cases (ltb (rank y) (rank x))) [
    | inl t ↦ rw t (
      insert_sorted-All (rank y) x ys (ground (arith, t)) above,
      insert_sorted-IsSortedBy x ys sorted,
    )
    | inr f ↦
        let low : rank x ≤ rank y = ground (arith, f) in
        rw f ((low, All-weaken (rank x) (rank y) ys low above), (above, sorted))
  ]

  pub sort_stable-IsSortedBy : (xs : List A) → IsSortedBy (sort_stable lower_rank xs)
  unfolding sort_stable
  sort_stable-IsSortedBy [] = record {}
  sort_stable-IsSortedBy (x ∷ xs) =
      insert_sorted-IsSortedBy x (sort_stable lower_rank xs) (sort_stable-IsSortedBy xs)
