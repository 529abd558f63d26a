-- ===== src/Commons/Rabbitmq/Consumption/Payloads.antt =====
-- What the functions of backend/commons/src/rabbitmq/client.go that consume JSON have handled, and what
-- the one that waits for a correlation ID leaves in the queue.
use rio_t_preprocessors.Base.{
  true, false, String, string_eq, ◌==◌, if◌then◌else◌, ap, Option, none, some, List, [], ◌∷◌, ◌++◌,
  ◌⊎◌, inl, inr, map, append-nil, ◌≡◌, ◌≢◌, refl, subst, arith, Bool-cases, All,
}
use rio_t_preprocessors.Commons.Rabbitmq.Consumption.{
  Delivery, Event, delivered, closed, timed_out, Answer, acked, requeued, Broker, Session, goes_on,
  ends, give, message_loop, correlated_round, correlated_loop, consume_json, consume_decoded,
  started, setup_message_consumption, consume_json_messages,
}
use rio_t_preprocessors.Commons.Rabbitmq.Consumption.Answers.{
  Round-cases, passed, joined_lem, same_lem,
}
use rio_t_preprocessors.Commons.Rabbitmq.Consumption.Stopping.{before_close, message_loop-acked}

-- `Qos` or `Consume` has not failed where no error is returned.
started_lem :
    {W Body Error : Type 0} (broker : Broker W Body Error)
    (consumer : W → Delivery Body → W × Option Error)
    (go : Session W Body → Option (Session W Body × Option Error)) (answers : List (Answer Body))
    (call : W × Option Error) (s' : Session W Body)
    → started broker consumer go answers call ≡ some (s', none)
    → (w : W) × (go record { world = w; answers = answers } ≡ some (s', none))
started_lem broker consumer go answers (w, none) s' e = (w, e)
started_lem broker consumer go answers (w, some err) s' e = ground (arith, e)

module _ {W Body Error T : Type 0} (broker : Broker W Body Error) (decode : Body → Error ⊎ T)
    (consumer : W → T → Delivery Body → W × Option Error) where
  -- A message that the consumer has taken: JSON, of a payload that it took without an error.
  abbrev pub IsTaken : Delivery Body → Type 0
  IsTaken m =
      ((m.content_type == "application/json") ≡ true)
      × ((payload : T) × (decode m.body ≡ inr payload)
          × ((w : W) × ((consumer w payload m).1 ≡ none)))

  payload_lem :
      (w : W) (m : Delivery Body) (found : Error ⊎ T)
      → decode m.body ≡ found
      → (consume_decoded broker decode consumer w m found).1 ≡ none
      → (payload : T) × (decode m.body ≡ inr payload)
        × ((w' : W) × ((consumer w' payload m).1 ≡ none))
  payload_lem w m (inl err) given e = ground (arith, e)
  payload_lem w m (inr payload) given e = (payload, given, (w, e))

  consume_json-IsTaken :
      (w : W) (m : Delivery Body) → (consume_json broker decode consumer w m).1 ≡ none → IsTaken m
  unfolding consume_json
  consume_json-IsTaken w m e = elim (Bool-cases (m.content_type == "application/json")) [
    | inl y ↦ (y, payload_lem w m (decode m.body) refl (ground (arith, y, e)))
    | inr n ↦ ground (arith, n, e)
  ]

  All-IsTaken :
      (ms : List (Delivery Body))
      → All
          (λ (m : Delivery Body). (w : W) × ((consume_json broker decode consumer w m).1 ≡ none))
          ms
      → All IsTaken ms
  All-IsTaken [] h = record {}
  All-IsTaken (m ∷ ms) ((w, e), rest) = (consume_json-IsTaken w m e, All-IsTaken ms rest)

  -- Where `ConsumeJSONMessages` returns no error, each message before the closing of the channel was
  -- JSON of a payload that the consumer took without an error in some state, and has been acknowledged,
  -- in order; nothing else has been answered.
  pub consume_json_messages-IsTaken :
      (queue : String) (events : List (Event Body)) (s s' : Session W Body)
      → consume_json_messages broker decode consumer queue events s ≡ some (s', none)
      → (s'.answers ≡ s.answers ++ map acked (before_close events))
        × All IsTaken (before_close events)
  unfolding consume_json_messages setup_message_consumption
  consume_json_messages-IsTaken queue events s s' e =
      let json = consume_json broker decode consumer in
      let (w, consuming) =
        started_lem broker json
          (λ (ready : Session W Body).
            started broker json (message_loop broker json events) ready.answers
              (broker.consume ready.world queue ""))
          s.answers (broker.qos s.world) s' e in
      let (w', looping) =
        started_lem broker json (message_loop broker json events) s.answers
          (broker.consume w queue "") s' consuming in
      let (answers, all) = message_loop-acked broker json events _ s' looping in
      (answers, All-IsTaken (before_close events) all)

module _ {W Body Error : Type 0} (broker : Broker W Body Error)
    (consumer : W → Delivery Body → W × Option Error) (correlation_id : String) where
  abbrev pub IsForeign : Delivery Body → Type 0
  IsForeign m = (m.correlation_id == correlation_id) ≡ false

  -- The messages of other callers before the caller's first one and before the end of the events.
  abbrev pub foreign_before : List (Event Body) → List (Delivery Body)
  foreign_before [] = []
  foreign_before (closed ∷ rest) = []
  foreign_before (timed_out ∷ rest) = []
  foreign_before (delivered m ∷ rest) =
      let later = foreign_before rest in
      if m.correlation_id == correlation_id then [] else m ∷ later

  -- The caller's first message, unless the events end before.
  abbrev pub first_own : List (Event Body) → Option (Delivery Body)
  first_own [] = none
  first_own (closed ∷ rest) = none
  first_own (timed_out ∷ rest) = none
  first_own (delivered m ∷ rest) =
      let later = first_own rest in if m.correlation_id == correlation_id then some m else later

  -- All messages of other callers up to `m` have gone back to the queue, and the last `Nack` has
  -- failed with the error that is returned.
  abbrev pub NackFails : List (Event Body) → Session W Body → Session W Body → Option Error → Type 0
  NackFails events s s' result =
      (foreign : List (Delivery Body)) × (m : Delivery Body) × (later : List (Delivery Body))
      × (foreign_before events ≡ foreign ++ (m ∷ later))
      × (s'.answers ≡ s.answers ++ (map requeued foreign ++ (requeued m ∷ [])))
      × ((w : W) × ((broker.answer w (requeued m)).1 ≡ result))
      × (result ≢ none)

  -- All messages of other callers have gone back, and there was none of the caller.
  abbrev pub EndsWithout :
      List (Event Body) → Session W Body → Session W Body → Option Error → Type 0
  EndsWithout events s s' result =
      (first_own events ≡ none)
      × (s'.answers ≡ s.answers ++ map requeued (foreign_before events))
      × (result ≢ none)

  -- All messages of other callers before the caller's first one have gone back, and then that one
  -- has been acknowledged.
  abbrev pub TakesOwn : List (Event Body) → Session W Body → Session W Body → Type 0
  TakesOwn events s s' =
      (m : Delivery Body) × (first_own events ≡ some m)
      × (s'.answers ≡ s.answers ++ (map requeued (foreign_before events) ++ (acked m ∷ [])))

  abbrev pub IsCorrelated :
      List (Event Body) → Session W Body → Session W Body → Option Error → Type 0
  IsCorrelated events s s' result =
      NackFails events s s' result ⊎ (EndsWithout events s s' result ⊎ TakesOwn events s s')

  round_goes_on :
      (s s₁ : Session W Body) (m : Delivery Body)
      → correlated_round broker consumer correlation_id s m ≡ goes_on s₁
      → IsForeign m × (s₁.answers ≡ s.answers ++ (requeued m ∷ []))
  unfolding correlated_round give
  round_goes_on s s₁ m e = ground (arith, e)

  round_ends :
      (s s₁ : Session W Body) (m : Delivery Body) (result : Option Error)
      → correlated_round broker consumer correlation_id s m ≡ ends s₁ result
      → (IsForeign m
          × (s₁.answers ≡ s.answers ++ (requeued m ∷ []))
          × ((broker.answer s.world (requeued m)).1 ≡ result)
          × (result ≢ none))
        ⊎ (((m.correlation_id == correlation_id) ≡ true)
            × (s₁.answers ≡ s.answers ++ (acked m ∷ [])))
  unfolding correlated_round give
  round_ends s s₁ m result e = ground (arith, e)

  last_lem :
      (s s₁ s' : Session W Body) (m : Delivery Body) (rest : List (Event Body))
      (last result : Option Error)
      → correlated_round broker consumer correlation_id s m ≡ ends s₁ last
      → ◌≡◌ {A = Option (Session W Body × Option Error)} (some (s₁, last)) (some (s', result))
      → IsCorrelated (delivered m ∷ rest) s s' result
  last_lem s s₁ s' m rest last result stops e = elim (round_ends s s₁ m last stops) [
    | inl (wrong, answers, failed, error) ↦ inl (
      [],
      m,
      foreign_before rest,
      rw wrong refl,
      ground (arith, answers, e),
      (s.world, ground (arith, failed, e)),
      ground (arith, error, e),
    )
    | inr (own, answers) ↦ inr (inr (m, rw own refl, rw own (ground (arith, answers, e))))
  ]

  more_lem :
      (s s₁ s' : Session W Body) (m : Delivery Body) (rest : List (Event Body))
      (result : Option Error)
      → IsForeign m
      → s₁.answers ≡ s.answers ++ (requeued m ∷ [])
      → IsCorrelated rest s₁ s' result
      → IsCorrelated (delivered m ∷ rest) s s' result
  more_lem s s₁ s' m rest result wrong first
        (inl (foreign, last, later, before, answers, failed, error)) =
      inl (
        m ∷ foreign,
        last,
        later,
        rw wrong (ap (λ (l : List (Delivery Body)). m ∷ l) before),
        joined_lem s s₁ s' (requeued m) (map requeued foreign ++ (requeued last ∷ [])) first
            answers,
        failed,
        error,
      )
  more_lem s s₁ s' m rest result wrong first (inr (inl (without, answers, failed))) = rw wrong (
      inr (
        inl (
          without,
          joined_lem s s₁ s' (requeued m) (map requeued (foreign_before rest)) first answers,
          failed,
        )))
  more_lem s s₁ s' m rest result wrong first (inr (inr (own, same, answers))) = rw wrong (
      inr (
        inr (
          own,
          same,
          joined_lem s s₁ s' (requeued m) (map requeued (foreign_before rest) ++ (acked own ∷ []))
              first answers,
        )))

  -- Where the loop of `SetupMessageConsumptionWithCorrelationId` returns, it has sent back to the queue
  -- every message of another caller that came before the caller's first one, in order, and has then
  -- acknowledged that one and nothing else; or the channel closed or the time ran out before a message
  -- of the caller came, and then it has sent back every message and returns an error; or a `Nack`
  -- failed, and then it has sent back the messages up to that one and returns the error of the `Nack`.
  pub correlated_loop-answers :
      (events : List (Event Body)) (s s' : Session W Body) (result : Option Error)
      → correlated_loop broker consumer correlation_id events s ≡ some (s', result)
      → IsCorrelated events s s' result
  unfolding correlated_loop
  correlated_loop-answers [] s s' result e = ground (arith, e)
  correlated_loop-answers (closed ∷ rest) s s' result e =
      inr (inl (refl, same_lem s s' _ result e, ground (arith, e)))
  correlated_loop-answers (timed_out ∷ rest) s s' result e =
      inr (inl (refl, rw (append-nil s.answers) (ground (arith, e)), ground (arith, e)))
  correlated_loop-answers (delivered m ∷ rest) s s' result e =
      elim (Round-cases (correlated_round broker consumer correlation_id s m)) [
        | inl (s₁, goes) ↦
            let (wrong, first) = round_goes_on s s₁ m goes in
            more_lem s s₁ s' m rest result wrong first (
              correlated_loop-answers rest s₁ s' result (
                subst
                  (λ r.
                    passed (correlated_loop broker consumer correlation_id rest) r
                    ≡ some (s', result))
                  goes e))
        | inr (s₁, last, stops) ↦ last_lem s s₁ s' m rest last result stops (
            subst
              (λ r.
                passed (correlated_loop broker consumer correlation_id rest) r ≡ some (s', result))
              stops e)
      ]
