-- ===== src/Commons/Rabbitmq/Batches/Delivery.antt =====
-- What `PublishJSONBatches` sends.
use mathlib.Core.List.{flatten}
use native.Mathlib.Nat.{suc-add}
use rio_t_preprocessors.Base.{
  ℕ, zero, suc, ◌+◌, ◌-◌, ◌≤◌, ◌<◌, ◌≡◌, refl, List, [], ◌∷◌, length, take, drop, Option, none,
  some, ltb, arith, ◌⊎◌, inl, inr, nat_eq, All, ap, take-append-drop, length-take, length-drop,
  Bool-cases, ◌∙◌, sym,
}
use rio_t_preprocessors.Base.Int.{ℤ}
use rio_t_preprocessors.Commons.Rabbitmq.Batches.{
  publish_batch, publish_loop, publish_json_batches, publish_all, chunks, batch_at, batch_limit,
  batches_of,
}

module _ {ℓ} {A : Type ℓ} where
  take_all : (n : ℕ) (xs : List A) → length xs ≤ n → take n xs ≡ xs
  take_all zero [] h = refl
  take_all zero (x ∷ xs) h = absurd (omega arith)
  take_all (suc n) [] h = refl
  take_all (suc n) (x ∷ xs) h = ap (◌∷◌ x) (take_all n xs (omega arith))

  drop-nil : (n : ℕ) → drop {A = A} n [] ≡ []
  drop-nil zero = refl
  drop-nil (suc n) = refl

  drop-drop : (n m : ℕ) (xs : List A) → drop n (drop m xs) ≡ drop (m + n) xs
  drop-drop n zero xs = ap (λ k. drop k xs) (omega arith)
  drop-drop n (suc m) [] = drop-nil n ∙ sym (drop-nil (suc m + n))
  drop-drop n (suc m) (x ∷ xs) = rw suc-add (drop-drop n m xs)

  chunks-step :
      (fuel size : ℕ) (xs : List A)
      → 0 < length xs
      → chunks (suc fuel) size xs ≡ take size xs ∷ chunks fuel size (drop size xs)
  unfolding chunks
  chunks-step fuel size [] h = absurd (omega arith)
  chunks-step fuel size (x ∷ xs) h = refl

  chunks-nil : (fuel size : ℕ) → chunks {A = A} fuel size [] ≡ []
  unfolding chunks
  chunks-nil zero size = refl
  chunks-nil (suc fuel) size = refl

  -- The pieces make up the list, and none is empty or longer than the size.
  pub chunks_lem :
      (fuel size : ℕ) (xs : List A)
      → 0 < size
      → length xs ≤ fuel
      → (flatten (chunks fuel size xs) ≡ xs)
        × All (λ batch. (0 < length batch) × (length batch ≤ size)) (chunks fuel size xs)
  unfolding chunks flatten
  chunks_lem zero size [] p h = (refl, tt)
  chunks_lem zero size (x ∷ xs) p h = absurd (omega arith)
  chunks_lem (suc fuel) size [] p h = (refl, tt)
  chunks_lem (suc fuel) size (x ∷ xs) p h =
      let (joined, sized) =
        chunks_lem fuel size (drop size (x ∷ xs)) p (omega (arith, length-drop size (x ∷ xs))) in
      (
        rw joined (take-append-drop size (x ∷ xs)),
        (
          (omega (arith, length-take size (x ∷ xs)), omega (arith, length-take size (x ∷ xs))),
          sized,
        ),
      )

module _ {ℓ} {A : Type ℓ} where
  drop_all : (n : ℕ) (xs : List A) → length xs ≤ n → drop n xs ≡ []
  drop_all zero [] h = refl
  drop_all zero (x ∷ xs) h = absurd (omega arith)
  drop_all (suc n) [] h = refl
  drop_all (suc n) (x ∷ xs) h = drop_all n xs (omega arith)

  -- `tuple[start:end]`, with `end` clipped to the length.
  whole_piece :
      (tuple : List A) (size start : ℕ) → batch_at tuple start size ≡ take size (drop start tuple)
  unfolding batch_at
  whole_piece tuple size start = elim (Bool-cases (ltb (length tuple) (start + size))) [
    | inl over ↦
        let rest = drop start tuple in
        rw over (
          take_all (length tuple - start) rest (omega (arith, length-drop start tuple))
          ∙ sym (take_all size rest (ground (arith, length-drop start tuple))))
    | inr fits ↦ rw fits (ap (λ n. take n (drop start tuple)) (omega arith))
  ]

  -- More fuel than there are items changes nothing.
  chunks_fuel :
      (fuel size : ℕ) (xs : List A)
      → 0 < size
      → length xs ≤ fuel
      → chunks (suc fuel) size xs ≡ chunks fuel size xs
  unfolding chunks
  chunks_fuel zero size [] p h = refl
  chunks_fuel zero size (x ∷ xs) p h = absurd (omega arith)
  chunks_fuel (suc fuel) size [] p h = refl
  chunks_fuel (suc fuel) size (x ∷ xs) p h =
      ap (◌∷◌ (take size (x ∷ xs)))
        (chunks_fuel fuel size (drop size (x ∷ xs)) p (omega (arith, length-drop size (x ∷ xs))))

module _ {A Payload Error Client : Type 0} (marshal : List A → Error ⊎ Payload)
    (publish_json_message : Client → Payload → Client × Option Error) where
  -- From any position on, the loop sends the pieces of what is left; fuel for one round more than
  -- there are items left is enough.
  loop-publish_all :
      (fuel : ℕ) (c : Client) (tuple : List A) (size start : ℕ)
      → 0 < size
      → length tuple - start < fuel
      → publish_loop marshal publish_json_message fuel c tuple size start
        ≡ some (publish_all marshal publish_json_message c (chunks fuel size (drop start tuple)))
  unfolding publish_loop publish_all
  loop-publish_all zero c tuple size start p h = absurd (omega arith)
  loop-publish_all (suc fuel) c tuple size start p h =
      let piece = take size (drop start tuple) in
      let sent = publish_batch marshal publish_json_message c piece in
      elim (Bool-cases (ltb start (length tuple))) [
        | inl more ↦
            let rest = loop-publish_all fuel sent.0 tuple size (start + size) p (ground arith) in
            let cut =
              chunks-step fuel size (drop start tuple) (ground (arith, length-drop start tuple)) in
            ground
              (arith, more, whole_piece tuple size start, cut, rest, drop-drop size start tuple)
        | inr done ↦
            let gone = drop_all start tuple (ground arith) in
            ground (arith, done, gone, chunks-nil {A = A} (suc fuel) size)
      ]

  publish_all-nil : (c : Client) → publish_all marshal publish_json_message c [] ≡ (c, none)
  unfolding publish_all
  publish_all-nil c = refl

  entered :
      (c : Client) (x : A) (xs : List A) (batch_size : ℤ)
      → publish_json_batches marshal publish_json_message c (x ∷ xs) batch_size
        ≡ publish_loop marshal publish_json_message
            (suc (length (x ∷ xs)))
            c
            (x ∷ xs)
            (batch_limit (x ∷ xs) batch_size)
            0
  unfolding publish_json_batches
  entered c x xs batch_size = ground arith

  -- `PublishJSONBatches` ends; it sends the tuple in batches which are not empty, no longer than
  -- the limit and together the tuple in its order, and stops at the first batch that fails.
  pub publish_json_batches_lem :
      (c : Client) (tuple : List A) (batch_size : ℤ)
      → (publish_json_batches marshal publish_json_message c tuple batch_size
          ≡ some (publish_all marshal publish_json_message c (batches_of tuple batch_size)))
        × (flatten (batches_of tuple batch_size) ≡ tuple)
        × All
            (λ batch. (0 < length batch) × (length batch ≤ batch_limit tuple batch_size))
            (batches_of tuple batch_size)
  unfolding publish_json_batches batches_of flatten
  publish_json_batches_lem c [] batch_size = (ap some (sym (publish_all-nil c)), refl, tt)
  publish_json_batches_lem c (x ∷ xs) batch_size =
      let tuple = x ∷ xs in
      let positive : 0 < batch_limit tuple batch_size = ground arith in
      let pieces =
        chunks_lem (length tuple) (batch_limit tuple batch_size) tuple positive (omega arith) in
      let run =
        loop-publish_all (suc (length tuple)) c tuple (batch_limit tuple batch_size) 0 positive
          (omega arith) in
      (
        entered c x xs batch_size
            ∙ run
            ∙ ap (λ b. some (publish_all marshal publish_json_message c b))
                (chunks_fuel (length tuple) (batch_limit tuple batch_size) tuple positive
                  (omega arith)),
        pieces.0,
        pieces.1,
      )
