-- ===== src/Waze/Lifecycle/Gathering.antt =====
-- What the aggregates of one feed are: for each segment, all its jams merged in their order.
use rio_t_preprocessors.Base.{
  suc, ◌+◌, ◌<◌, Bool, String, string_eq, ◌==◌, if◌then◌else◌, Option, none, some, List, [], ◌∷◌,
  ◌++◌, ◌≡◌, refl, arith, ap, sym, ◌∙◌, map, length, length-append, filter_b, All, All-append,
  IsDistinct, Option-cases, Bool-cases, inl, inr,
}
use rio_t_preprocessors.Base.Maps.{
  Dict, keys, lookup, lookup-insert, insert-IsDistinct, All-insert, All-lookup,
}
use rio_t_preprocessors.Base.Sorting.{sort_stable, insert_sorted}
use rio_t_preprocessors.Base.Time.{Time}
use rio_t_preprocessors.Base.Float.{Float64}
use rio_t_preprocessors.Commons.Json.{Members}
use rio_t_preprocessors.Waze.Model.{DeviceAggregate, SegmentReference}
use rio_t_preprocessors.Waze.Parsing.{member, sort_raw_jams, parse_segments}
use rio_t_preprocessors.Waze.Aggregation.{merge_aggregate, aggregate_of, build_aggregates_from_jam}
use rio_t_preprocessors.Waze.Lifecycle.{Environment, gather_one, gather_all, aggregates_of}

module _ {ℓ} {A : Type ℓ} (less : A → A → Bool) where
  length-insert_sorted : (x : A) (xs : List A) → length (insert_sorted less x xs) ≡ suc (length xs)
  unfolding insert_sorted
  length-insert_sorted x [] = refl
  length-insert_sorted x (y ∷ ys) = ground (arith, length-insert_sorted x ys)

  pub length-sort_stable : (xs : List A) → length (sort_stable less xs) ≡ length xs
  unfolding sort_stable
  length-sort_stable [] = refl
  length-sort_stable (x ∷ xs) =
      omega (arith, length-sort_stable xs, length-insert_sorted x (sort_stable less xs))

module _ (fl : Float64) (env : Environment fl) where
  open fl use {F}

  abbrev pub merge : DeviceAggregate F → DeviceAggregate F → DeviceAggregate F
  merge = merge_aggregate fl env.minus_one env.conv

  -- Aggregates merged one after the other into what there is.
  abbrev pub merge_into :
      Option (DeviceAggregate F) → List (DeviceAggregate F) → Option (DeviceAggregate F)
  merge_into acc [] = acc
  merge_into none (a ∷ rest) = merge_into (some a) rest
  merge_into (some b) (a ∷ rest) = merge_into (some (merge b a)) rest

  abbrev pub of_segment : String → List (DeviceAggregate F) → List (DeviceAggregate F)
  of_segment x = filter_b (λ a. a.uid == x)

  -- An entry stands under its own UID, and has as many jams as it counts, at least one.
  abbrev pub IsCounted : String × DeviceAggregate F → Type 0
  IsCounted e = (e.1.uid ≡ e.0) × (length e.1.raw_jams ≡ e.1.jam_count) × (0 < e.1.jam_count)

  merge_into-cons :
      (acc : Option (DeviceAggregate F)) (a : DeviceAggregate F) (l : List (DeviceAggregate F))
      → merge_into acc (a ∷ l) ≡ merge_into (merge_into acc (a ∷ [])) l
  merge_into-cons none a l = refl
  merge_into-cons (some b) a l = refl

  lookup-gather_one :
      (m : Dict String (DeviceAggregate F)) (a : DeviceAggregate F) (x : String)
      → lookup x (gather_one fl env m a)
        ≡ (if a.uid == x then merge_into (lookup x m) (a ∷ []) else lookup x m)
  unfolding gather_one
  lookup-gather_one m a x = elim (Option-cases (lookup a.uid m)) [
    | inl new ↦ ground (arith, new, lookup-insert a.uid x a m, string_eq.beq_iff a.uid x)
    | inr (b, old) ↦
        ground (arith, old, lookup-insert a.uid x (merge b a) m, string_eq.beq_iff a.uid x)
  ]

  lookup-gather_all :
      (l : List (DeviceAggregate F)) (m : Dict String (DeviceAggregate F)) (x : String)
      → lookup x (gather_all fl env l m) ≡ merge_into (lookup x m) (of_segment x l)
  unfolding gather_all
  lookup-gather_all [] m x = refl
  lookup-gather_all (a ∷ l) m x = elim (Bool-cases (a.uid == x)) [
    | inl y ↦ rw y (
        lookup-gather_all l (gather_one fl env m a) x
        ∙ ap (λ o. merge_into o (of_segment x l)) (lookup-gather_one m a x ∙ rw y refl)
        ∙ sym (merge_into-cons (lookup x m) a (of_segment x l)))
    | inr n ↦ rw n (
        lookup-gather_all l (gather_one fl env m a) x
        ∙ ap (λ o. merge_into o (of_segment x l)) (lookup-gather_one m a x ∙ rw n refl))
  ]

  pub gather_all-IsDistinct :
      (l : List (DeviceAggregate F)) (m : Dict String (DeviceAggregate F))
      → IsDistinct (keys m)
      → IsDistinct (keys (gather_all fl env l m))
  unfolding gather_all gather_one
  gather_all-IsDistinct [] m d = d
  gather_all-IsDistinct (a ∷ l) m d = elim (Option-cases (lookup a.uid m)) [
    | inl new ↦
        gather_all-IsDistinct l (gather_one fl env m a)
          (rw (new, gather_one) (insert-IsDistinct a.uid a m d))
    | inr (b, old) ↦
        gather_all-IsDistinct l (gather_one fl env m a)
          (rw (old, gather_one) (insert-IsDistinct a.uid (merge b a) m d))
  ]

  length-raw_jams :
      (b a : DeviceAggregate F)
      → length (merge b a).raw_jams ≡ length b.raw_jams + length a.raw_jams
  unfolding merge_aggregate sort_raw_jams
  length-raw_jams b a =
      length-sort_stable _ (b.raw_jams ++ a.raw_jams) ∙ length-append b.raw_jams a.raw_jams

  gather_all-IsCounted :
      (l : List (DeviceAggregate F)) (m : Dict String (DeviceAggregate F))
      → All (λ a. IsCounted (a.uid, a)) l
      → All IsCounted m
      → All IsCounted (gather_all fl env l m)
  unfolding gather_all gather_one merge_aggregate
  gather_all-IsCounted [] m c d = d
  gather_all-IsCounted (a ∷ l) m c d = elim (Option-cases (lookup a.uid m)) [
    | inl new ↦
        gather_all-IsCounted l (gather_one fl env m a) c.1
          (rw (new, gather_one) (All-insert IsCounted a.uid a m c.0 d))
    | inr (b, old) ↦
        let h : IsCounted (a.uid, b) = All-lookup IsCounted a.uid b m d old in
        gather_all-IsCounted l (gather_one fl env m a) c.1 (
          rw (old, gather_one)
            (All-insert IsCounted a.uid (merge b a) m
              (h.0, omega (arith, length-raw_jams b a, h.1, c.0.1), omega (arith, c.0.2)) d))
  ]

  aggregates-IsCounted :
      (now : Time) (jam : Members F) (segments : List SegmentReference)
      → All
          (λ a. IsCounted (a.uid, a))
          (map (aggregate_of fl env.minus_one env.conv now jam) segments)
  unfolding aggregate_of
  aggregates-IsCounted now jam [] = tt
  aggregates-IsCounted now jam (s ∷ segments) =
      ((refl, refl, omega arith), aggregates-IsCounted now jam segments)

  aggregates_of-IsCounted :
      (jams : List (Members F × Time)) → All (λ a. IsCounted (a.uid, a)) (aggregates_of fl env jams)
  unfolding aggregates_of build_aggregates_from_jam
  aggregates_of-IsCounted [] = tt
  aggregates_of-IsCounted ((jam, now) ∷ rest) =
      All-append (λ a. IsCounted (a.uid, a)) _ (aggregates_of fl env rest)
        (aggregates-IsCounted now jam (parse_segments env.conv (member "segments" jam)))
        (aggregates_of-IsCounted rest)

  pub gathered-IsCounted :
      (jams : List (Members F × Time))
      → All IsCounted (gather_all fl env (aggregates_of fl env jams) [])
  gathered-IsCounted jams =
      gather_all-IsCounted (aggregates_of fl env jams) [] (aggregates_of-IsCounted jams) tt

  -- A feed is gathered into one aggregate for each segment that has a jam: the jams of the segment,
  -- merged in their order. It stands under its own UID, counts at least one jam, and holds as many
  -- as it counts.
  pub gather_all_lem :
      (jams : List (Members F × Time))
      → let gathered = gather_all fl env (aggregates_of fl env jams) [] in
        IsDistinct (keys gathered)
        × ((x : String)
            → lookup x gathered ≡ merge_into none (of_segment x (aggregates_of fl env jams)))
        × ((x : String) (a : DeviceAggregate F)
            → lookup x gathered ≡ some a
            → (a.uid ≡ x) × (length a.raw_jams ≡ a.jam_count) × (0 < a.jam_count))
  unfolding lookup
  gather_all_lem jams = (
    gather_all-IsDistinct (aggregates_of fl env jams) [] tt,
    lookup-gather_all (aggregates_of fl env jams) [],
    λ x a. All-lookup IsCounted x a _ (gathered-IsCounted jams),
  )
