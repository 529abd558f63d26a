-- ===== src/Commons/Rabbitmq/Batches/Tests.antt =====
-- An example for the batches: a client that keeps what was published and refuses numbers from 9 on.
use mathlib.Core.List.{flatten}
use rio_t_preprocessors.Base.{
  ℕ, ◌<◌, ◌≤◌, ◌≡◌, List, [], ◌∷◌, ◌++◌, length, Option, none, some, ◌⊎◌, inl, inr, All, refl, ltb,
  if◌then◌else◌,
}
use rio_t_preprocessors.Base.Int.{pos}
use rio_t_preprocessors.Commons.Rabbitmq.Batches.{
  publish_json_batches, publish_loop, publish_batch, batch_at, publish_all, batches_of, batch_limit,
}
use rio_t_preprocessors.Commons.Rabbitmq.Batches.Delivery.{publish_json_batches_lem}

abbrev marshal_all : List ℕ → ℕ ⊎ List ℕ
marshal_all [] = inl 0
marshal_all (x ∷ xs) = if ltb x 9 then inr (x ∷ xs) else inl 1

abbrev send : List (List ℕ) → List ℕ → List (List ℕ) × Option ℕ
send sent payload = (sent ++ payload ∷ [], none)

abbrev five : List ℕ
five = 1 ∷ 2 ∷ 3 ∷ 4 ∷ 5 ∷ []

publish_json_batches_lem_example :
    (publish_json_batches marshal_all send [] five (pos 2)
      ≡ some (publish_all marshal_all send [] (batches_of five (pos 2))))
    × (flatten (batches_of five (pos 2)) ≡ five)
    × All
        (λ batch. (0 < length batch) × (length batch ≤ batch_limit five (pos 2)))
        (batches_of five (pos 2))
publish_json_batches_lem_example = publish_json_batches_lem marshal_all send [] five (pos 2)

three_batches :
    publish_json_batches marshal_all send [] five (pos 2)
    ≡ some ((1 ∷ 2 ∷ []) ∷ (3 ∷ 4 ∷ []) ∷ (5 ∷ []) ∷ [], none)
unfolding publish_json_batches publish_loop publish_batch batch_at
three_batches = refl
