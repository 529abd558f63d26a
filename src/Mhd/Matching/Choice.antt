-- ===== src/Mhd/Matching/Choice.antt =====
-- The match is the best one: the first with the least score among the occurrences in the window.
use rio_t_preprocessors.Base.{
  ◌+◌, ◌<◌, true, Option, none, some, List, [], ◌∷◌, ◌++◌, ◌≡◌, refl, ap, sym, ◌∙◌, inl, inr, arith,
  All, All-append, Bool-cases, append_assoc, append-nil, map, subst,
}
use rio_t_preprocessors.Base.Int.{ℤ, pos_part, neg_part, ltb_ℤ, ◌≤ℤ◌}
use rio_t_preprocessors.Base.Maps.{Dict}
use rio_t_preprocessors.Base.Time.{Time, Duration}
use rio_t_preprocessors.Mhd.Model.{
  LiveRecord, TripDefinition, TripOccurrence, TripMatch, InstanceState,
}
use rio_t_preprocessors.Mhd.Store.{GtfsStore, definitions_for}
use rio_t_preprocessors.Mhd.Matching.{
  in_window, score_of, consider, scan_occurrences, scan_candidates, match_live_record,
}
use rio_t_preprocessors.Base.{ℕ, String}

All-map {ℓ} :
    {A : Type ℓ} (P Q : A → Type 0) (xs : List A) → ((x : A) → P x → Q x) → All P xs → All Q xs
All-map P Q [] f h = tt
All-map P Q (x ∷ xs) f h = (f x h.0, All-map P Q xs f h.1)

-- A candidate with one of its occurrences.
abbrev pub Choice : Type 0 → Type 0
Choice F = TripDefinition F × TripOccurrence

-- The choices in the order in which the two loops visit them.
abbrev pub choices : {F : Type 0} → List (TripDefinition F) → List (Choice F)
choices [] = []
choices (candidate ∷ rest) =
    map (λ (occurrence : TripOccurrence). (candidate, occurrence)) candidate.occurrences
    ++ choices rest

infix 50 ◌<ℤ◌
abbrev pub ◌<ℤ◌ : ℤ → ℤ → Type 0
a <ℤ b = pos_part a + neg_part b < pos_part b + neg_part a

lt_trans : (a b c : ℤ) → a <ℤ b → b <ℤ c → a <ℤ c
lt_trans a b c h k = omega arith

lt_le_trans : (a b c : ℤ) → a <ℤ b → b ≤ℤ c → a <ℤ c
lt_le_trans a b c h k = omega arith

module _ {F : Type 0} (local_day : Time → ℕ × ℕ) (states : Dict String InstanceState)
    (window : Duration) (live : LiveRecord F) where
  abbrev pub Fits : Choice F → Type 0
  Fits c = in_window window live.source_timestamp c.1 ≡ true

  abbrev pub cost : Choice F → Duration
  cost c = score_of local_day states c.0 c.1 live

  abbrev DearerThan : Duration → Choice F → Type 0
  DearerThan score c = Fits c → score <ℤ cost c

  abbrev NotCheaperThan : Duration → Choice F → Type 0
  NotCheaperThan score c = Fits c → score ≤ℤ cost c

  -- The match is one of the choices, it fits, all that fit before it have a greater score and all
  -- that fit after it no lesser one.
  pub record IsFirstBest (m : TripMatch F) (seen : List (Choice F)) : Type 0 where
    pub before : List (Choice F)
    pub after : List (Choice F)
    pub split : seen ≡ before ++ ((m.definition, m.occurrence) ∷ after)
    pub fits : Fits (m.definition, m.occurrence)
    pub scored : m.score ≡ cost (m.definition, m.occurrence)
    pub dearer : All (λ c. Fits c → m.score <ℤ cost c) before
    pub no_cheaper : All (λ c. Fits c → m.score ≤ℤ cost c) after

  -- Without a match nothing fits.
  abbrev pub IsBest : Option (TripMatch F) → List (Choice F) → Type 0
  IsBest none seen = All (λ c. ¬ Fits c) seen
  IsBest (some m) seen = IsFirstBest m seen

  cheaper_than-All :
      (m : TripMatch F) (seen : List (Choice F)) (score : Duration)
      → IsFirstBest m seen
      → score <ℤ m.score
      → All (DearerThan score) seen
  cheaper_than-All m seen score b h = subst (All (DearerThan score)) (sym b.split) (
      All-append (DearerThan score) b.before ((m.definition, m.occurrence) ∷ b.after)
        (All-map (DearerThan m.score) (DearerThan score) b.before
          (λ c d f. lt_trans score m.score (cost c) h (d f)) b.dearer)
        (
          (λ f. subst (λ k. score <ℤ k) b.scored h),
          All-map (NotCheaperThan m.score) (DearerThan score) b.after
              (λ c d f. lt_le_trans score m.score (cost c) h (d f)) b.no_cheaper,
        ))

  abbrev new_match : Choice F → TripMatch F
  new_match c = record { definition = c.0; occurrence = c.1; score = cost c }

  IsFirstBest-new :
      (c : Choice F) (seen : List (Choice F))
      → Fits c
      → All (DearerThan (cost c)) seen
      → IsFirstBest (new_match c) (seen ++ c ∷ [])
  IsFirstBest-new c seen f d = record {
    before = seen;
    after = [];
    split = refl;
    fits = f;
    scored = refl;
    dearer = d;
    no_cheaper = tt;
  }

  IsFirstBest-keep :
      (m : TripMatch F) (c : Choice F) (seen : List (Choice F))
      → NotCheaperThan m.score c
      → IsFirstBest m seen
      → IsFirstBest m (seen ++ c ∷ [])
  IsFirstBest-keep m c seen h b = record {
    before = b.before;
    after = b.after ++ c ∷ [];
    split =
        ap (λ l. l ++ c ∷ []) b.split
        ∙ append_assoc b.before ((m.definition, m.occurrence) ∷ b.after) (c ∷ []);
    fits = b.fits;
    scored = b.scored;
    dearer = b.dearer;
    no_cheaper = All-append (NotCheaperThan m.score) b.after (c ∷ []) b.no_cheaper (h, tt);
  }

  consider-IsBest :
      (best : Option (TripMatch F)) (c : Choice F) (seen : List (Choice F))
      → IsBest best seen
      → IsBest (consider local_day states window live c.0 best c.1) (seen ++ c ∷ [])
  unfolding consider
  consider-IsBest none c seen h = elim (Bool-cases (in_window window live.source_timestamp c.1)) [
    | inl f ↦ rw f (
        IsFirstBest-new c seen f
          (All-map (λ d. ¬ Fits d) (DearerThan (cost c)) seen (λ d n y. absurd (n y)) h))
    | inr n ↦ rw n (All-append (λ d. ¬ Fits d) seen (c ∷ []) h ((λ y. cc), tt))
  ]
  consider-IsBest (some m) c seen h =
      elim (Bool-cases (in_window window live.source_timestamp c.1)) [
        | inl f ↦ elim (Bool-cases (ltb_ℤ (cost c) m.score)) [
          | inl less ↦
              rw (f, less)
                (IsFirstBest-new c seen f (cheaper_than-All m seen (cost c) h (ground arith)))
          | inr more ↦ rw (f, more) (IsFirstBest-keep m c seen (λ _. ground arith) h)
        ]
        | inr n ↦ rw n (IsFirstBest-keep m c seen (λ y. cc) h)
      ]

  scan_occurrences-IsBest :
      (candidate : TripDefinition F) (best : Option (TripMatch F)) (seen : List (Choice F))
      (occurrences : List TripOccurrence)
      → IsBest best seen
      → IsBest
          (scan_occurrences local_day states window live candidate best occurrences)
          (seen ++ map (λ (occurrence : TripOccurrence). (candidate, occurrence)) occurrences)
  unfolding scan_occurrences
  scan_occurrences-IsBest candidate best seen [] h = subst (IsBest best) (sym (append-nil seen)) h
  scan_occurrences-IsBest candidate best seen (occurrence ∷ rest) h =
      let c : Choice F = (candidate, occurrence) in
      let best' = consider local_day states window live candidate best occurrence in
      subst (IsBest (scan_occurrences local_day states window live candidate best' rest))
        (append_assoc seen (c ∷ []) (map (λ (o : TripOccurrence). (candidate, o)) rest))
        (scan_occurrences-IsBest candidate best' (seen ++ c ∷ []) rest
          (consider-IsBest best c seen h))

  scan_candidates-IsBest :
      (best : Option (TripMatch F)) (seen : List (Choice F)) (candidates : List (TripDefinition F))
      → IsBest best seen
      → IsBest
          (scan_candidates local_day states window live best candidates)
          (seen ++ choices candidates)
  unfolding scan_candidates
  scan_candidates-IsBest best seen [] h = subst (IsBest best) (sym (append-nil seen)) h
  scan_candidates-IsBest best seen (candidate ∷ rest) h =
      let own = map (λ (o : TripOccurrence). (candidate, o)) candidate.occurrences in
      let best' =
        scan_occurrences local_day states window live candidate best candidate.occurrences in
      subst (IsBest (scan_candidates local_day states window live best' rest))
        (append_assoc seen own (choices rest))
        (scan_candidates-IsBest best' (seen ++ own) rest
          (scan_occurrences-IsBest candidate best seen candidate.occurrences h))

  -- The record is matched exactly if an occurrence of a trip with its line and route fits the
  -- window; the match is then one of least score, and the first of these in the order of the store.
  pub match_live_record_lem :
      (store : GtfsStore F)
      → IsBest
          (match_live_record local_day states window live store)
          (choices (definitions_for store live.line_id live.live_route_id))
  unfolding match_live_record
  match_live_record_lem store =
      scan_candidates-IsBest none [] (definitions_for store live.line_id live.live_route_id) tt
