-- ===== src/Commons/Rabbitmq/Consumption/Answers.antt =====
-- Which messages backend/commons/src/rabbitmq/client.go acknowledges, discards and returns to the queue.
use rio_t_preprocessors.Base.{
  ℕ, zero, suc, Bool, true, false, String, string_eq, ◌==◌, Option, none, some, List, [], ◌∷◌, ◌++◌,
  ◌⊎◌, inl, inr, map, take, append-nil, append_assoc, ◌≡◌, refl, ◌∙◌, subst, arith, All,
}
use rio_t_preprocessors.Commons.Rabbitmq.Consumption.{
  Delivery, Event, delivered, closed, timed_out, Answer, acked, discarded, requeued, Broker,
  Session, Round, goes_on, ends, give, rpc_round, consume_rpc_stream,
}

-- The message that an answer is given to.
abbrev pub subject : {Body : Type 0} → Answer Body → Delivery Body
subject (acked m) = m
subject (discarded m) = m
subject (requeued m) = m

-- The messages among the first `n` events.
abbrev pub deliveries : {Body : Type 0} → ℕ → List (Event Body) → List (Delivery Body)
deliveries zero events = []
deliveries (suc n) [] = []
deliveries (suc n) (delivered m ∷ rest) = m ∷ deliveries n rest
deliveries (suc n) (closed ∷ rest) = deliveries n rest
deliveries (suc n) (timed_out ∷ rest) = deliveries n rest

-- The state of a session after a round.
abbrev pub after : {W Body Error : Type 0} → Round W Body Error → Session W Body
after (goes_on s) = s
after (ends s result) = s

pub Round-cases :
    {W Body Error : Type 0} (r : Round W Body Error)
    → ((s : Session W Body) × (r ≡ goes_on s))
      ⊎ ((s : Session W Body) × (result : Option Error) × (r ≡ ends s result))
Round-cases (goes_on s) = inl (s, refl)
Round-cases (ends s result) = inr (s, result, refl)

-- How a run goes on after a round.
abbrev pub passed :
    {W Body Error : Type 0}
    → (Session W Body → Option (Session W Body × Option Error))
    → Round W Body Error
    → Option (Session W Body × Option Error)
passed next (goes_on s) = next s
passed next (ends s result) = some (s, result)

pub joined_lem :
    {W Body : Type 0} (s s₁ s' : Session W Body) (a : Answer Body) (new : List (Answer Body))
    → s₁.answers ≡ s.answers ++ (a ∷ [])
    → s'.answers ≡ s₁.answers ++ new
    → s'.answers ≡ s.answers ++ (a ∷ new)
joined_lem s s₁ s' a new first answers = answers ∙ (rw first (append_assoc s.answers (a ∷ []) new))

pub same_lem :
    {W Body Error : Type 0} (s s' : Session W Body) (r result : Option Error)
    → ◌≡◌ {A = Option (Session W Body × Option Error)} (some (s, r)) (some (s', result))
    → s'.answers ≡ s.answers ++ []
same_lem s s' r result e = rw (append-nil s.answers) (ground (arith, e))

module _ {W Body Error T : Type 0} (broker : Broker W Body Error) (decode : Body → Error ⊎ T)
    (handle : W → T → Delivery Body → W × (Bool × Option Error)) (correlation_id : String) where
  -- An acknowledged message is the caller's own, one that is not goes nowhere else.
  abbrev pub IsOwnAnswer : Answer Body → Type 0
  IsOwnAnswer (acked m) = (m.correlation_id == correlation_id) ≡ true
  IsOwnAnswer (discarded m) = Unit
  IsOwnAnswer (requeued m) = ⊥

  -- The answer of a round to its message.
  abbrev IsAnswer : Delivery Body → Answer Body → Type 0
  IsAnswer m a = (subject a ≡ m) × IsOwnAnswer a

  abbrev AnswersOnce : Session W Body → Delivery Body → Session W Body → Type 0
  AnswersOnce s m s' =
      (a : Answer Body) × (s'.answers ≡ s.answers ++ (a ∷ [])) × (subject a ≡ m) × IsOwnAnswer a

  give_lem :
      (s : Session W Body) (a : Answer Body) → (give broker s a).0.answers ≡ s.answers ++ (a ∷ [])
  unfolding give
  give_lem s a = refl

  rpc_round-answers :
      (s : Session W Body) (m : Delivery Body)
      → let s' = after (rpc_round broker decode handle correlation_id s m) in
        (s'.answers ≡ s.answers ++ (discarded m ∷ []))
        ⊎ ((s'.answers ≡ s.answers ++ (acked m ∷ []))
            × ((m.correlation_id == correlation_id) ≡ true))
  unfolding rpc_round give
  rpc_round-answers s m = ground arith

  rpc_round-AnswersOnce :
      (s : Session W Body) (m : Delivery Body)
      → AnswersOnce s m (after (rpc_round broker decode handle correlation_id s m))
  rpc_round-AnswersOnce s m = elim (rpc_round-answers s m) [
    | inl e ↦ (discarded m, e, refl, record {})
    | inr (e, own) ↦ (acked m, e, refl, own)
  ]

  -- The run over the first `k` events still waits, and the one over one event more returns. Each of
  -- the messages until then has been given one answer, in the order of the messages.
  abbrev pub AnswersAll :
      Bool → List (Event Body) → Session W Body → Session W Body → Option Error → Type 0
  AnswersAll has_timeout events s s' result =
      (k : ℕ) × (new : List (Answer Body)) × (consume_rpc_stream broker decode handle correlation_id
          has_timeout (take k events) s
        ≡ none)
      × (consume_rpc_stream broker decode handle correlation_id has_timeout (take (suc k) events) s
          ≡ some (s', result))
      × (s'.answers ≡ s.answers ++ new)
      × (map subject new ≡ deliveries (suc k) events)
      × All IsOwnAnswer new

  delivered_lem :
      (has_timeout : Bool) (m : Delivery Body) (rest : List (Event Body)) (s s₁ s' : Session W Body)
      (result : Option Error)
      → rpc_round broker decode handle correlation_id s m ≡ goes_on s₁
      → AnswersAll has_timeout rest s₁ s' result
      → AnswersAll has_timeout (delivered m ∷ rest) s s' result
  unfolding consume_rpc_stream
  delivered_lem has_timeout m rest s s₁ s' result e
        (k, new, waits, returns, answers, subjects, own) =
      let (a, first, same, is_own) = rpc_round-AnswersOnce s m in
      (
        suc k,
        a ∷ new,
        rw (consume_rpc_stream, e) waits,
        rw (consume_rpc_stream, e) returns,
        joined_lem s s₁ s' a new (subst (λ r. (after r).answers ≡ s.answers ++ (a ∷ [])) e first)
            answers,
        rw (same, subjects) refl,
        (is_own, own),
      )

  -- Where `ConsumeRPCStream` returns, at the first event that makes it return, each message received
  -- until then has been given one answer, in order; only messages of the caller are acknowledged, and
  -- none goes back to the queue.
  pub consume_rpc_stream-answers :
      (has_timeout : Bool) (events : List (Event Body)) (s s' : Session W Body)
      (result : Option Error)
      → consume_rpc_stream broker decode handle correlation_id has_timeout events s
        ≡ some (s', result)
      → AnswersAll has_timeout events s s' result
  unfolding consume_rpc_stream
  consume_rpc_stream-answers has_timeout [] s s' result e = ground (arith, e)
  consume_rpc_stream-answers has_timeout (closed ∷ rest) s s' result e =
      (0, [], refl, e, same_lem s s' _ result e, refl, record {})
  consume_rpc_stream-answers true (timed_out ∷ rest) s s' result e =
      (0, [], refl, e, same_lem s s' _ result e, refl, record {})
  consume_rpc_stream-answers false (timed_out ∷ rest) s s' result e =
      let (k, new, waits, returns, answers, subjects, own) =
        consume_rpc_stream-answers false rest s s' result e in
      (suc k, new, waits, returns, answers, subjects, own)
  consume_rpc_stream-answers has_timeout (delivered m ∷ rest) s s' result e =
      elim (Round-cases (rpc_round broker decode handle correlation_id s m)) [
        | inl (s₁, goes) ↦ delivered_lem has_timeout m rest s s₁ s' result goes (
            consume_rpc_stream-answers has_timeout rest s₁ s' result (
              subst
                (λ r.
                  passed (consume_rpc_stream broker decode handle correlation_id has_timeout rest) r
                  ≡ some (s', result))
                goes e))
        | inr (s₁, last, stops) ↦
            let (a, first, same, is_own) = rpc_round-AnswersOnce s m in
            let returned =
              subst
                (λ r.
                  passed (consume_rpc_stream broker decode handle correlation_id has_timeout rest) r
                  ≡ some (s', result))
                stops e in
            let first_answer = subst (λ r. (after r).answers ≡ s.answers ++ (a ∷ [])) stops first in
            (
              0,
              a ∷ [],
              refl,
              rw (consume_rpc_stream, stops) returned,
              ground (arith, returned, first_answer),
              rw same refl,
              (is_own, record {}),
            )
      ]
