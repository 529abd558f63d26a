-- ===== src/Mhd/Calendar/Days.antt =====
-- What backend/mhd-preprocessor/src/gtfs_store.go makes of the days of a service.
use rio_t_preprocessors.Base.{
  false, ◌||◌, String, string_eq, ◌==◌, Eq, List, [], ◌∷◌, ◌++◌, elem, any_b-append, IsDistinct,
  ◌≡◌, refl, arith, Bool-cases, inl, inr,
}
use rio_t_preprocessors.Base.Sorting.{
  lower_rank, any_b-sort_stable, sort_stable-IsDistinct, sort_stable-IsSortedBy, IsSortedBy,
}
use rio_t_preprocessors.Mhd.Calendar.{
  add_unseen, service_day_code_order, sort_service_day_codes, merge_service_days,
}

module _ {ℓ} {A : Type ℓ} ⦃e : Eq A⦄ where
  snoc-IsDistinct :
      (xs : List A) (x : A) → elem x xs ≡ false → IsDistinct xs → IsDistinct (xs ++ (x ∷ []))
  snoc-IsDistinct [] x h d = (refl, record {})
  snoc-IsDistinct (y ∷ ys) x h (fresh, d) = (
    ground (arith, h, fresh, any_b-append (λ z. z == y) ys (x ∷ []), e.beq_iff x y, e.beq_iff y x),
    snoc-IsDistinct ys x (ground (arith, h)) d,
  )

  pub add_unseen-IsDistinct :
      (seen items : List A) → IsDistinct seen → IsDistinct (add_unseen seen items)
  unfolding add_unseen
  add_unseen-IsDistinct seen [] d = d
  add_unseen-IsDistinct seen (item ∷ rest) d = elim (Bool-cases (elem item seen)) [
    | inl y ↦ rw y (add_unseen-IsDistinct seen rest d)
    | inr n ↦
        rw n (add_unseen-IsDistinct (seen ++ (item ∷ [])) rest (snoc-IsDistinct seen item n d))
  ]

  pub elem-add_unseen :
      (x : A) (seen items : List A) → elem x (add_unseen seen items) ≡ (elem x seen || elem x items)
  unfolding add_unseen
  elem-add_unseen x seen [] = ground arith
  elem-add_unseen x seen (item ∷ rest) = elim (Bool-cases (elem item seen)) [
    | inl y ↦ rw y (ground (arith, y, elem-add_unseen x seen rest, e.beq_iff item x))
    | inr n ↦ rw n (
        ground (
          arith,
          elem-add_unseen x (seen ++ (item ∷ [])) rest,
          any_b-append (λ z. z == x) seen (item ∷ []),
        ))
  ]

-- The merged days: no code twice, the codes of both sides, in the order of the week.
abbrev pub IsMerge : List String → List String → List String → Type 0
IsMerge left right merged =
    IsDistinct merged
    × ((code : String) → elem code merged ≡ (elem code left || elem code right))
    × IsSortedBy service_day_code_order merged

-- The merged days have no code twice, each code of either side and no other, and the codes in the order
-- of the week.
pub merge_service_days_lem :
    (left right : List String) → IsMerge left right (merge_service_days left right)
unfolding merge_service_days sort_service_day_codes
merge_service_days_lem left right = (
  sort_stable-IsDistinct (lower_rank service_day_code_order) _ (
      add_unseen-IsDistinct (add_unseen [] left) right (add_unseen-IsDistinct [] left (record {}))),
  λ code. ground (
    arith,
    any_b-sort_stable (lower_rank service_day_code_order) (λ z. z == code)
        (add_unseen (add_unseen [] left) right),
    elem-add_unseen code (add_unseen [] left) right,
    elem-add_unseen code [] left,
  ),
  sort_stable-IsSortedBy service_day_code_order _,
)
