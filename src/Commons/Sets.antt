-- ===== src/Commons/Sets.antt =====
-- backend/commons/src/sharedUtils/set.go: `Set[T]`, a map from its items to the empty struct.
-- A `range` over the items is a recursion on the association list behind the map.
pub mod Algebra
mod Tests
use rio_t_preprocessors.Base.{
  ℕ, Bool, true, false, ◌≡◌, List, [], ◌∷◌, Eq, ◌==◌, if◌then◌else◌, ltb, length, arith, not, ◌&&◌,
  ◌||◌, nat_eq,
}
use rio_t_preprocessors.Base.Maps.{
  Dict, lookup, insert, delete, has, keys, lookup-insert, lookup-delete,
}

pub record Set {ℓ} (A : Type ℓ) : Type ℓ where
  pub items : Dict A (Unit {0})

unfoldable pub new_set {ℓ} : {A : Type ℓ} → Set A
new_set = record { items = [] }

module _ {ℓ} {A : Type ℓ} ⦃e : Eq A⦄ where
  unfoldable pub add : Set A → A → Set A
  add s item = record { items = insert item tt s.items }

  unfoldable pub remove : Set A → A → Set A
  remove s item = record { items = delete item s.items }

  unfoldable pub contains : Set A → A → Bool
  contains s item = has item s.items

  abbrev add_all : Set A → List A → Set A
  add_all s [] = s
  add_all s (item ∷ rest) = add_all (add s item) rest

  unfoldable pub from_slice : List A → Set A
  from_slice slice = add_all new_set slice

  unfoldable pub size : Set A → ℕ
  size s = length s.items

  unfoldable pub is_empty : Set A → Bool
  unfolding size
  is_empty s = size s == 0

  -- The loop `for item := range items { if keep(item) { acc.Add(item) } }`.
  abbrev pub collect : (A → Bool) → List A → Set A → Set A
  collect keep [] acc = acc
  collect keep (item ∷ rest) acc = collect keep rest (if keep item then add acc item else acc)

  -- The loop `for item := range items { if keep(item) { return true } }; return false`.
  abbrev pub search_loop : (A → Bool) → List A → Bool
  search_loop found [] = false
  search_loop found (item ∷ rest) = if found item then true else search_loop found rest

  unfoldable pub intersection : Set A → Set A → Set A
  unfolding size contains
  intersection s os =
      if ltb (size os) (size s)
      then collect (contains s) (keys os.items) new_set
      else collect (contains os) (keys s.items) new_set

  unfoldable pub has_intersection : Set A → Set A → Bool
  unfolding size contains
  has_intersection s os =
      if ltb (size os) (size s)
      then search_loop (contains s) (keys os.items)
      else search_loop (contains os) (keys s.items)

  unfoldable pub union : Set A → Set A → Set A
  union s os =
      collect (λ item. true) (keys os.items) (collect (λ item. true) (keys s.items) new_set)

  unfoldable pub difference : Set A → Set A → Set A
  unfolding contains
  difference s os = collect (λ item. not (contains os item)) (keys s.items) new_set

  unfoldable pub to_slice : Set A → List A
  to_slice s = keys s.items

  pub contains-add : (s : Set A) (a x : A) → contains (add s a) x ≡ (a == x || contains s x)
  unfolding contains add
  contains-add s a x = ground (arith, lookup-insert a x tt s.items)

  pub contains-remove :
      (s : Set A) (a x : A) → contains (remove s a) x ≡ (not (a == x) && contains s x)
  unfolding contains remove
  contains-remove s a x = ground (arith, lookup-delete a x s.items)
