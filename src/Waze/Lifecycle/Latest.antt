-- ===== src/Waze/Lifecycle/Latest.antt =====
-- How many jams a merged aggregate counts, and which time it has.
use rio_t_preprocessors.Base.{
  ℕ, zero, suc, ◌+◌, String, string_eq, Option, none, some, List, [], ◌∷◌, ◌≡◌, refl, arith, ap,
  subst, sym, ◌∙◌, All, get_elem?, Bool-cases, inl, inr,
}
use rio_t_preprocessors.Base.Int.{ltb_ℤ, ◌≤ℤ◌}
use rio_t_preprocessors.Base.Maps.{lookup}
use rio_t_preprocessors.Base.Time.{Time}
use rio_t_preprocessors.Base.Float.{Float64}
use rio_t_preprocessors.Commons.Json.{Members}
use rio_t_preprocessors.Waze.Model.{DeviceAggregate}
use rio_t_preprocessors.Waze.Aggregation.{merge_aggregate}
use rio_t_preprocessors.Waze.Lifecycle.{Environment, gather_all, aggregates_of}
use rio_t_preprocessors.Waze.Lifecycle.Gathering.{merge, merge_into, of_segment, gather_all_lem}

module _ {F : Type 0} where
  abbrev pub total_count : List (DeviceAggregate F) → ℕ
  total_count [] = 0
  total_count (a ∷ rest) = a.jam_count + total_count rest

  -- The aggregate counts all jams of the list, and has the greatest time in it.
  pub record IsLatest (r : DeviceAggregate F) (l : List (DeviceAggregate F)) : Type 0 where
    pub counted : r.jam_count ≡ total_count l
    pub newest : All (λ a. a.pub_millis_latest ≤ℤ r.pub_millis_latest) l
    pub place : ℕ
    pub source : DeviceAggregate F
    pub found : get_elem? l place ≡ some source
    pub same_millis : r.pub_millis_latest ≡ source.pub_millis_latest
    pub same_time : r.event_time ≡ source.event_time

  payload : DeviceAggregate F → Option (DeviceAggregate F) → DeviceAggregate F
  payload d none = d
  payload d (some a) = a

  IsLatest-self : (b : DeviceAggregate F) → IsLatest b (b ∷ [])
  IsLatest-self b = record {
    counted = omega arith;
    newest = (omega arith, tt);
    place = 0;
    source = b;
    found = refl;
    same_millis = refl;
    same_time = refl;
  }

module _ (fl : Float64) (env : Environment fl) where
  open fl use {F}

  -- Where a time stands among the aggregates.
  abbrev HasTime : DeviceAggregate F → List (DeviceAggregate F) → Type 0
  HasTime r l =
      (k : ℕ) × (s : DeviceAggregate F) × (get_elem? l k ≡ some s)
      × (r.pub_millis_latest ≡ s.pub_millis_latest)
      × (r.event_time ≡ s.event_time)

  merge-HasTime :
      (r b a : DeviceAggregate F) (l : List (DeviceAggregate F)) (k : ℕ) (s : DeviceAggregate F)
      → get_elem? (merge fl env b a ∷ l) k ≡ some s
      → r.pub_millis_latest ≡ s.pub_millis_latest
      → r.event_time ≡ s.event_time
      → HasTime r (b ∷ a ∷ l)
  unfolding merge_aggregate payload
  merge-HasTime r b a l (suc k) s f m t = (suc (suc k), s, f, m, t)
  merge-HasTime r b a l zero s f m t =
      let e : merge fl env b a ≡ s = ap (payload b) f in
      elim (Bool-cases (ltb_ℤ b.pub_millis_latest a.pub_millis_latest)) [
        | inl newer ↦ (
          1,
          a,
          refl,
          m ∙ ap (λ c. c.pub_millis_latest) (sym e) ∙ rw newer refl,
          t ∙ ap (λ c. c.event_time) (sym e) ∙ rw newer refl,
        )
        | inr older ↦ (
          0,
          b,
          refl,
          m ∙ ap (λ c. c.pub_millis_latest) (sym e) ∙ rw older refl,
          t ∙ ap (λ c. c.event_time) (sym e) ∙ rw older refl,
        )
      ]

  merge-IsLatest :
      (r b a : DeviceAggregate F) (l : List (DeviceAggregate F))
      → IsLatest r (merge fl env b a ∷ l)
      → IsLatest r (b ∷ a ∷ l)
  unfolding merge_aggregate
  merge-IsLatest r b a l h =
      let at = merge-HasTime r b a l h.place h.source h.found h.same_millis h.same_time in
      record {
        counted = omega (arith, h.counted);
        newest = (ground (arith, h.newest.0), (ground (arith, h.newest.0), h.newest.1));
        place = at.0;
        source = at.1;
        found = at.2;
        same_millis = at.3;
        same_time = at.4;
      }

  merge_into-IsLatest :
      (b : DeviceAggregate F) (l : List (DeviceAggregate F)) (r : DeviceAggregate F)
      → merge_into fl env (some b) l ≡ some r
      → IsLatest r (b ∷ l)
  unfolding payload
  merge_into-IsLatest b [] r h =
      subst (λ a. IsLatest a (b ∷ [])) (ap (payload b) h) (IsLatest-self b)
  merge_into-IsLatest b (a ∷ l) r h =
      merge-IsLatest r b a l (merge_into-IsLatest (merge fl env b a) l r h)

  first-IsLatest :
      (l : List (DeviceAggregate F)) (r : DeviceAggregate F)
      → merge_into fl env none l ≡ some r
      → IsLatest r l
  first-IsLatest [] r h = absurd (ground (arith, h))
  first-IsLatest (b ∷ l) r h = merge_into-IsLatest b l r h

  -- The aggregate that a feed has for a segment counts the jams of all its aggregates of that
  -- segment, and has the time of one of them that none of them is newer than.
  pub gather_all-IsLatest :
      (jams : List (Members F × Time)) (x : String) (r : DeviceAggregate F)
      → lookup x (gather_all fl env (aggregates_of fl env jams) []) ≡ some r
      → IsLatest r (of_segment fl env x (aggregates_of fl env jams))
  gather_all-IsLatest jams x r h =
      first-IsLatest (of_segment fl env x (aggregates_of fl env jams)) r
        (sym ((gather_all_lem fl env jams).1 x) ∙ h)
