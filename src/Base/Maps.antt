-- ===== src/Base/Maps.antt =====
-- Go's `map[K]V` as an association list with the laws of lookup, assignment and deletion.
-- The order of the list stands for the order in which one `range` over the map visits its entries,
-- which the language leaves open: statements range over every list.
use rio_t_preprocessors.Base.Tests.{Eq, ◌==◌, if◌then◌else◌, Bool-cases, beq_self}
use rio_t_preprocessors.Base.Lists.{elem, IsDistinct, All}
use mathlib.Core.Path.{◌≡◌, refl, sym, subst}
use mathlib.Core.Logic.{inl, inr}
use mathlib.Core.Bool.{Bool, true, false}
use mathlib.Core.Option.{Option, none, some}
use mathlib.Core.List.{List, [], ◌∷◌, map}
use native.Mathlib.Omega.{arith}

abbrev pub Dict {ℓ κ} : Type ℓ → Type κ → Type (ℓ ⊔ κ)
Dict K V = List (K × V)

abbrev pub keys {ℓ κ} : {K : Type ℓ} {V : Type κ} → Dict K V → List K
keys = map (λ e. e.0)

module _ {ℓ κ} {K : Type ℓ} {V : Type κ} ⦃e : Eq K⦄ where
  -- `v, ok := m[k]`
  unfoldable pub lookup : K → Dict K V → Option V
  lookup key [] = none
  lookup key ((first, value) ∷ others) = if first == key then some value else lookup key others

  -- `m[k] = v`
  unfoldable pub insert : K → V → Dict K V → Dict K V
  insert key new [] = (key, new) ∷ []
  insert key new ((first, value) ∷ others) =
      if first == key then (first, new) ∷ others else (first, value) ∷ insert key new others

  -- `delete(m, k)`
  unfoldable pub delete : K → Dict K V → Dict K V
  delete k [] = []
  delete k ((j, w) ∷ m) = let rest = delete k m in if j == k then rest else (j, w) ∷ rest

  -- `_, ok := m[k]`
  abbrev pub has : K → Dict K V → Bool
  has k m = elim (lookup k m) [ none ↦ false | some v ↦ true ]

  pub lookup-insert :
      (key x : K) (new : V) (m : Dict K V)
      → lookup x (insert key new m) ≡ (if key == x then some new else lookup x m)
  unfolding lookup insert
  lookup-insert key x new [] = refl
  lookup-insert key x new ((first, value) ∷ others) = ground (
    arith,
    lookup-insert key x new others,
    e.beq_iff first key,
    e.beq_iff first x,
    e.beq_iff key x,
  )

  pub lookup-delete :
      (k j : K) (m : Dict K V) → lookup j (delete k m) ≡ (if k == j then none else lookup j m)
  unfolding lookup delete
  lookup-delete k j [] = ground arith
  lookup-delete k j ((i, w) ∷ m) =
      ground (arith, e.beq_iff k j, e.beq_iff i k, e.beq_iff i j, lookup-delete k j m)

  pub lookup-insert_self : (k : K) (v : V) (m : Dict K V) → lookup k (insert k v m) ≡ some v
  lookup-insert_self k v m = rw lookup-insert (rw (beq_self k))

  -- A key is bound exactly if it is among the keys.
  pub has-eq-elem : (k : K) (m : Dict K V) → has k m ≡ elem k (keys m)
  unfolding lookup
  has-eq-elem k [] = refl
  has-eq-elem k ((j, v) ∷ m) = ground (arith, has-eq-elem k m)

  elem-keys-insert :
      (k j : K) (v : V) (m : Dict K V)
      → elem j (keys m) ≡ false
      → (k == j) ≡ false
      → elem j (keys (insert k v m)) ≡ false
  unfolding insert
  elem-keys-insert k j v [] h n = ground arith
  elem-keys-insert k j v ((i, w) ∷ m) h n = ground (arith, elem-keys-insert k j v m)

  -- Assignment keeps the keys distinct.
  pub insert-IsDistinct :
      (k : K) (v : V) (m : Dict K V) → IsDistinct (keys m) → IsDistinct (keys (insert k v m))
  unfolding insert
  insert-IsDistinct k v [] h = ground arith
  insert-IsDistinct k v ((i, w) ∷ m) h = elim (Bool-cases (i == k)) [
    | inl y ↦ rw (y, insert) h
    | inr n ↦
        rw (n, insert)
          (
            elem-keys-insert k i v m h.0 (ground (arith, e.beq_iff k i, e.beq_iff i k)),
            insert-IsDistinct k v m h.1,
          )
  ]

  -- A predicate on the entries survives an assignment that has it, and holds of what is found.
  pub All-insert {μ} :
      (P : K × V → Type μ) (k : K) (v : V) (m : Dict K V)
      → P (k, v)
      → All P m
      → All P (insert k v m)
  unfolding insert
  All-insert P k v [] h a = (h, tt)
  All-insert P k v ((i, w) ∷ m) h a = elim (Bool-cases (i == k)) [
    | inl y ↦ rw (y, insert) (subst (λ j. P (j, v)) (sym ((e.beq_iff i k).0 y)) h, a.1)
    | inr n ↦ rw (n, insert) (a.0, All-insert P k v m h a.1)
  ]

  pub All-lookup {μ} :
      (P : K × V → Type μ) (k : K) (v : V) (m : Dict K V) → All P m → lookup k m ≡ some v → P (k, v)
  unfolding lookup
  All-lookup P k v [] a h = absurd (ground (arith, h))
  All-lookup P k v ((i, w) ∷ m) a h = elim (Bool-cases (i == k)) [
    | inl y ↦
        subst (λ j. P (j, v)) ((e.beq_iff i k).0 y)
          (subst (λ u. P (i, u)) (ground (arith, y, h)) a.0)
    | inr n ↦ All-lookup P k v m a.1 (ground (arith, n, h))
  ]
