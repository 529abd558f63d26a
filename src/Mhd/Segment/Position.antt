-- ===== src/Mhd/Segment/Position.antt =====
-- Where on its trip a vehicle is placed.
use rio_t_preprocessors.Base.{
  ℕ, zero, suc, ◌+◌, ◌<◌, ◌≤◌, Bool, true, false, ◌&&◌, String, string_eq, nat_eq, ◌==◌, ltb,
  if◌then◌else◌, Option, none, some, List, [], ◌∷◌, length, get_elem?, ◌≡◌, refl, ◌⊎◌, inl, inr,
  arith, Bool-cases, Option-cases, ◌≢◌, ap, ◌∙◌,
}
use rio_t_preprocessors.Base.Float.{Float64}
use rio_t_preprocessors.Mhd.Model.{LiveRecord, StopMetadata, TripDefinition}
use rio_t_preprocessors.Mhd.Segment.{
  SegmentMatch, normalize_stop_identity, last_match, segment_index_from_last_stop, clamp_unit,
  segment_progress, nearest_stop_segment_index, new_segment_match, build_segment_match,
}

module _ {F : Type 0} where
  abbrev has_identity : String → Option (StopMetadata F) → Bool
  has_identity target none = false
  has_identity target (some stop) = normalize_stop_identity stop.id == target

  -- The stop at this index starts a segment, and has the identity.
  abbrev pub starts_segment : String → List (StopMetadata F) → ℕ → Bool
  starts_segment target stops k =
      has_identity target (get_elem? stops k) && ltb (k + 1) (length stops)

  abbrev FoundLast : String → ℕ → Option ℕ → List (StopMetadata F) → Option ℕ → Type 0
  FoundLast target idx best stops result =
      ((result ≡ best) × ((k : ℕ) → starts_segment target stops k ≡ false))
      ⊎ ((j : ℕ) × (result ≡ some (idx + j))
          × (starts_segment target stops j ≡ true)
          × ((k : ℕ) → j < k → starts_segment target stops k ≡ false))

  starts_segment-short :
      (target : String) (stops : List (StopMetadata F)) (k : ℕ)
      → length stops < 2
      → starts_segment target stops k ≡ false
  starts_segment-short target stops k h = ground arith

  starts_segment-suc :
      (target : String) (stop : StopMetadata F) (stops : List (StopMetadata F)) (k : ℕ)
      → starts_segment target (stop ∷ stops) (suc k) ≡ starts_segment target stops k
  starts_segment-suc target stop stops k = ground arith

  starts_segment-later :
      (target : String) (stop : StopMetadata F) (stops : List (StopMetadata F)) (j : ℕ)
      → ((k : ℕ) → j ≤ k → starts_segment target stops k ≡ false)
      → (k : ℕ) → j < k
      → starts_segment target (stop ∷ stops) k ≡ false
  starts_segment-later target stop stops j h zero l = absurd (omega arith)
  starts_segment-later target stop stops j h (suc k) l =
      starts_segment-suc target stop stops k ∙ h k (omega arith)

  starts_segment-all :
      (target : String) (stop : StopMetadata F) (stops : List (StopMetadata F)) (k : ℕ)
      → (normalize_stop_identity stop.id == target) ≡ false
      → ((k : ℕ) → starts_segment target stops k ≡ false)
      → starts_segment target (stop ∷ stops) k ≡ false
  starts_segment-all target stop stops zero n h = ground arith
  starts_segment-all target stop stops (suc k) n h = starts_segment-suc target stop stops k ∙ h k

  last_match-FoundLast :
      (target : String) (idx : ℕ) (best : Option ℕ) (stops : List (StopMetadata F))
      → FoundLast target idx best stops (last_match target idx best stops)
  unfolding last_match
  last_match-FoundLast target idx best [] =
      inl (refl, λ k. starts_segment-short target [] k (omega arith))
  last_match-FoundLast target idx best (stop ∷ []) =
      inl (refl, λ k. starts_segment-short target (stop ∷ []) k (omega arith))
  last_match-FoundLast target idx best (stop ∷ next ∷ rest) =
      let here = normalize_stop_identity stop.id == target in
      elim (last_match-FoundLast target (idx + 1) (if here then some idx else best) (next ∷ rest)) [
        | inl (e, later) ↦ elim (Bool-cases here) [
          | inl y ↦ inr (
            0,
            ground (arith, e, y),
            ground (arith, y),
            starts_segment-later target stop (next ∷ rest) 0 (λ k h. later k),
          )
          | inr n ↦ inl (
            ground (arith, e, n),
            λ k. starts_segment-all target stop (next ∷ rest) k (ground (arith, n)) later,
          )
        ]
        | inr (j, e, found, later) ↦ inr (
          suc j,
          e ∙ ap some (omega arith),
          starts_segment-suc target stop (next ∷ rest) j ∙ found,
          starts_segment-later target stop (next ∷ rest) (suc j) (λ k h. later k (omega arith)),
        )
      ]

  -- The index found for a last stop is that of the last stop with this identity which starts a
  -- segment; none is found exactly where the identity is blank or no such stop starts one.
  pub segment_index_from_last_stop_lem :
      (stops : List (StopMetadata F)) (last_stop_id : String)
      → let target = normalize_stop_identity last_stop_id in
        ((j : ℕ) × (segment_index_from_last_stop stops last_stop_id ≡ some j)
          × (target ≢ "")
          × (starts_segment target stops j ≡ true)
          × ((k : ℕ) → j < k → starts_segment target stops k ≡ false))
        ⊎ ((segment_index_from_last_stop stops last_stop_id ≡ none)
            × ((target ≡ "") ⊎ ((k : ℕ) → starts_segment target stops k ≡ false)))
  unfolding segment_index_from_last_stop
  segment_index_from_last_stop_lem stops last_stop_id =
      let target = normalize_stop_identity last_stop_id in
      elim (Bool-cases (target == "")) [
        | inl blank ↦ inr (ground (arith, blank), inl ((string_eq.beq_iff target "").0 blank))
        | inr named ↦ elim (Bool-cases (ltb (length stops) 2)) [
          | inl short ↦ inr (
            ground (arith, named, short),
            inr (λ k. starts_segment-short target stops k (ground (arith, short))),
          )
          | inr long ↦ elim (last_match-FoundLast target 0 none stops) [
            | inl (e, no_match) ↦ inr (ground (arith, named, long, e), inr no_match)
            | inr (j, e, found, later) ↦ inl (
              j,
              ground (arith, named, long, e),
              ground (arith, named, string_eq.beq_iff target ""),
              found,
              later,
            )
          ]
        ]
      ]

-- What the properties below assume of the comparison of the numbers 0 and 1.
pub record UnitOrder (fl : Float64) : Type 0 where
  pub zero_zero : fl.lt fl.f_zero fl.f_zero ≡ false
  pub one_zero : fl.lt fl.f_one fl.f_zero ≡ false
  pub one_one : fl.lt fl.f_one fl.f_one ≡ false

module _ (fl : Float64) (u : UnitOrder fl) where
  open fl use {F, f_zero, f_one, lt}

  abbrev InUnit : F → Type 0
  InUnit x = (lt x f_zero ≡ false) × (lt f_one x ≡ false)

  clamp_unit-InUnit : (x : F) → InUnit (clamp_unit fl x)
  unfolding clamp_unit
  clamp_unit-InUnit x = ground (arith, u.zero_zero, u.one_zero, u.one_one)

  InUnit-if : (b : Bool) {x y : F} → InUnit x → InUnit y → InUnit (if b then x else y)
  InUnit-if true hx hy = hx
  InUnit-if false hx hy = hy

  zero_in : InUnit f_zero
  zero_in = (u.zero_zero, u.one_zero)

  segment_progress-InUnit :
      (from to : StopMetadata F) (lat lng : F) → InUnit (segment_progress fl from to lat lng)
  unfolding segment_progress
  segment_progress-InUnit from to lat lng =
      InUnit-if _ zero_in (InUnit-if _ zero_in (clamp_unit-InUnit _))

  -- A segment lies between two stops that follow one another, with a progress within its ends.
  abbrev IsPlaced : List (StopMetadata F) → SegmentMatch F → Type 0
  IsPlaced stops m =
      (get_elem? stops m.index ≡ some m.from)
      × (get_elem? stops (m.index + 1) ≡ some m.to)
      × (lt m.progress f_zero ≡ false)
      × (lt f_one m.progress ≡ false)

  new_segment_match-IsPlaced :
      (stops : List (StopMetadata F)) (i : ℕ) (live : LiveRecord F) (m : SegmentMatch F)
      → new_segment_match fl stops i live ≡ some m
      → IsPlaced stops m
  unfolding new_segment_match
  new_segment_match-IsPlaced stops i live m h = elim (Option-cases (get_elem? stops i)) [
    | inl no_from ↦ absurd (ground (arith, no_from))
    | inr (from, e) ↦ elim (Option-cases (get_elem? stops (i + 1))) [
      | inl no_to ↦ absurd (ground (arith, e, no_to))
      | inr (to, f) ↦
          let p = segment_progress-InUnit from to live.geometry_lat live.geometry_lng in
          ground (arith, e, f, p.0, p.1)
    ]
  ]

  -- Where none of 0 < 0, 1 < 0 and 1 < 1 holds:
  -- A vehicle is placed between two stops that follow one another on its trip, with a progress that
  -- is neither below 0 nor above 1.
  pub build_segment_match_lem :
      (definition : TripDefinition F) (live : LiveRecord F) (m : SegmentMatch F)
      → build_segment_match fl (some definition) live ≡ some m
      → (get_elem? definition.stop_metadata m.index ≡ some m.from)
        × (get_elem? definition.stop_metadata (m.index + 1) ≡ some m.to)
        × (lt m.progress f_zero ≡ false)
        × (lt f_one m.progress ≡ false)
  unfolding build_segment_match
  build_segment_match_lem definition live m h =
      let stops = definition.stop_metadata in
      elim (Option-cases (segment_index_from_last_stop stops live.last_stop_id)) [
        | inr (i, e) ↦ new_segment_match-IsPlaced stops i live m (ground (arith, e))
        | inl no_stop ↦
            elim (Option-cases
              (nearest_stop_segment_index fl stops live.geometry_lat live.geometry_lng)) [
                | inr (i, e) ↦
                    new_segment_match-IsPlaced stops i live m (ground (arith, no_stop, e))
                | inl nowhere ↦ absurd (ground (arith, no_stop, nowhere))
              ]
      ]

module _ {ℓ} {A : Type ℓ} where
  pub get_elem?-lt : (xs : List A) (k : ℕ) → k < length xs → (x : A) × (get_elem? xs k ≡ some x)
  get_elem?-lt [] k h = absurd (omega arith)
  get_elem?-lt (x ∷ xs) zero h = (x, refl)
  get_elem?-lt (x ∷ xs) (suc k) h = get_elem?-lt xs k (omega arith)

index_bound :
    {F : Type 0} (stops : List (StopMetadata F)) (last_stop_id : String) (i : ℕ)
    → segment_index_from_last_stop stops last_stop_id ≡ some i
    → i + 1 < length stops
index_bound stops last_stop_id i h = elim (segment_index_from_last_stop_lem stops last_stop_id) [
  | inl (j, e, named, found, later) ↦ ground (arith, e, h, found)
  | inr (e, _) ↦ absurd (ground (arith, e, h))
]

module _ (fl : Float64) where
  open fl use {F}

  -- A last stop that starts a segment of the trip decides the segment, whatever the coordinates.
  pub build_segment_match-last_stop :
      (definition : TripDefinition F) (live : LiveRecord F) (i : ℕ)
      → segment_index_from_last_stop definition.stop_metadata live.last_stop_id ≡ some i
      → (m : SegmentMatch F) × (build_segment_match fl (some definition) live ≡ some m)
        × (m.index ≡ i)
  unfolding build_segment_match new_segment_match
  build_segment_match-last_stop definition live i h =
      let stops = definition.stop_metadata in
      let bound = index_bound stops live.last_stop_id i h in
      let (from, e) = get_elem?-lt stops i (omega (arith, bound)) in
      let (to, f) = get_elem?-lt stops (i + 1) bound in
      (
        record {
          index = i;
          from = from;
          to = to;
          progress = segment_progress fl from to live.geometry_lat live.geometry_lng;
        },
        ground (arith, h, bound, e, f),
        refl,
      )
