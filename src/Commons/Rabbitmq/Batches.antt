-- ===== src/Commons/Rabbitmq/Batches.antt =====
-- backend/commons/src/rabbitmq/client.go: `PublishJSONBatches`. `json.Marshal` and the client's
-- `PublishJSONMessage` are parameters: the one fails or gives a payload, the other changes the
-- state of the client, and fails or not. A failed call of either ends the function.
pub mod Delivery
mod Tests
use rio_t_preprocessors.Base.{
  ℕ, zero, suc, ◌+◌, ◌-◌, List, [], ◌∷◌, length, take, drop, Option, none, some, ltb, if◌then◌else◌,
  ◌⊎◌, inl, inr, nat_eq, ◌==◌,
}
use rio_t_preprocessors.Base.Int.{ℤ, pos_part}

-- `tuple[start:end]`, where `end` is `start + batchSize`, or the length if that is less.
unfoldable pub batch_at {ℓ} : {A : Type ℓ} → List A → ℕ → ℕ → List A
batch_at tuple start batch_size =
    let end =
      (if ltb (length tuple) (start + batch_size) then length tuple else start + batch_size) in
    take (end - start) (drop start tuple)

module _ {A Payload Error Client : Type 0} (marshal : List A → Error ⊎ Payload)
    (publish_json_message : Client → Payload → Client × Option Error) where
  -- One round of the loop, without its counter: serialise a batch and publish it.
  unfoldable pub publish_batch : Client → List A → Client × Option Error
  publish_batch c batch = elim (marshal batch) [
    | inl err ↦ (c, some err)
    | inr payload ↦ publish_json_message c payload
  ]

  -- The `for` loop, on fuel; `none` means that the fuel ran out.
  unfoldable pub publish_loop : ℕ → Client → List A → ℕ → ℕ → Option (Client × Option Error)
  publish_loop zero c tuple batch_size start = none
  publish_loop (suc fuel) c tuple batch_size start =
      if ltb start (length tuple)
      then (let (c', result) = publish_batch c (batch_at tuple start batch_size) in
          elim result [
            | some err ↦ some (c', some err)
            | none ↦ publish_loop fuel c' tuple batch_size (start + batch_size)
          ])
      else some (c, none)

  unfoldable pub publish_json_batches : Client → List A → ℤ → Option (Client × Option Error)
  publish_json_batches c tuple batch_size =
      if length tuple == 0
      then some (c, none)
      else publish_loop (suc (length tuple)) c tuple
          (if pos_part batch_size == 0 then length tuple else pos_part batch_size) 0

  -- The batches are published one after the other, up to the first failure.
  unfoldable pub publish_all : Client → List (List A) → Client × Option Error
  publish_all c [] = (c, none)
  publish_all c (batch ∷ rest) =
      let (c', result) = publish_batch c batch in
      elim result [ some err ↦ (c', some err) | none ↦ publish_all c' rest ]

-- The tuple in pieces of `size`, the last one maybe shorter.
unfoldable pub chunks {ℓ} : {A : Type ℓ} → ℕ → ℕ → List A → List (List A)
chunks zero size xs = []
chunks (suc fuel) size [] = []
chunks (suc fuel) size (x ∷ xs) = take size (x ∷ xs) ∷ chunks fuel size (drop size (x ∷ xs))

-- The size in force: a size of zero or less stands for the whole tuple.
abbrev pub batch_limit {ℓ} : {A : Type ℓ} → List A → ℤ → ℕ
batch_limit tuple batch_size =
    if pos_part batch_size == 0 then length tuple else pos_part batch_size

-- The pieces that `PublishJSONBatches` is meant to send.
unfoldable pub batches_of {ℓ} : {A : Type ℓ} → List A → ℤ → List (List A)
unfolding chunks
batches_of tuple batch_size = chunks (length tuple) (batch_limit tuple batch_size) tuple
