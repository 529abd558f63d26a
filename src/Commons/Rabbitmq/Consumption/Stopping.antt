-- ===== src/Commons/Rabbitmq/Consumption/Stopping.antt =====
-- When the loops of backend/commons/src/rabbitmq/client.go that consume messages return, and what they
-- have answered when they return no error.
use rio_t_preprocessors.Base.{
  Bool, true, false, String, string_eq, Option, none, some, List, [], ◌∷◌, ◌++◌, ◌⊎◌, inl, inr, map,
  any_b, ◌≡◌, ◌≢◌, refl, subst, arith, Bool-cases, All,
}
use rio_t_preprocessors.Commons.Rabbitmq.Consumption.{
  Delivery, Event, delivered, closed, timed_out, acked, Broker, Session, goes_on, ends, give,
  rpc_round, consume_rpc_stream, message_round, message_loop,
}
use rio_t_preprocessors.Commons.Rabbitmq.Consumption.Answers.{
  Round-cases, passed, joined_lem, same_lem,
}

-- The channel closes, or the timeout of a function that has one fires.
abbrev pub is_end : {Body : Type 0} → Bool → Event Body → Bool
is_end has_timeout (delivered m) = false
is_end has_timeout closed = true
is_end has_timeout timed_out = has_timeout

module _ {W Body Error T : Type 0} (broker : Broker W Body Error) (decode : Body → Error ⊎ T)
    (handle : W → T → Delivery Body → W × (Bool × Option Error)) (correlation_id : String)
    (has_timeout : Bool) where
  -- Where the channel closes or the timeout fires among the events, `ConsumeRPCStream` returns.
  pub consume_rpc_stream-ends :
      (events : List (Event Body)) (s : Session W Body)
      → any_b (is_end has_timeout) events ≡ true
      → (s' : Session W Body) × (result : Option Error) × (consume_rpc_stream broker decode handle
            correlation_id has_timeout events s
          ≡ some (s', result))
  unfolding consume_rpc_stream
  consume_rpc_stream-ends [] s h = ground (arith, h)
  consume_rpc_stream-ends (closed ∷ rest) s h = (s, _, refl)
  consume_rpc_stream-ends (timed_out ∷ rest) s h = elim (Bool-cases has_timeout) [
    | inl y ↦ (s, some (broker.error_of "timeout waiting for response"), rw y refl)
    | inr n ↦
        let (s', result, e) = consume_rpc_stream-ends rest s (ground (arith, h, n)) in
        (s', result, rw n e)
  ]
  consume_rpc_stream-ends (delivered m ∷ rest) s h =
      elim (Round-cases (rpc_round broker decode handle correlation_id s m)) [
        | inl (s₁, goes) ↦
            let (s', result, e) = consume_rpc_stream-ends rest s₁ h in
            (s', result, rw (consume_rpc_stream, goes) e)
        | inr (s₁, last, stops) ↦ (s₁, last, rw (consume_rpc_stream, stops) refl)
      ]

-- The messages before the channel is closed.
abbrev pub before_close : {Body : Type 0} → List (Event Body) → List (Delivery Body)
before_close [] = []
before_close (closed ∷ rest) = []
before_close (timed_out ∷ rest) = before_close rest
before_close (delivered m ∷ rest) = m ∷ before_close rest

module _ {W Body Error : Type 0} (broker : Broker W Body Error)
    (consumer : W → Delivery Body → W × Option Error) where
  message_round-goes_on :
      (s s₁ : Session W Body) (m : Delivery Body)
      → message_round broker consumer s m ≡ goes_on s₁
      → (s₁.answers ≡ s.answers ++ (acked m ∷ [])) × ((consumer s.world m).1 ≡ none)
  unfolding message_round give
  message_round-goes_on s s₁ m e = ground (arith, e)

  message_round-ends :
      (s s₁ : Session W Body) (m : Delivery Body) (result : Option Error)
      → message_round broker consumer s m ≡ ends s₁ result
      → result ≢ none
  unfolding message_round give
  message_round-ends s s₁ m result e = ground (arith, e)

  -- A run that returns no error.
  abbrev pub IsAllConsumed : List (Event Body) → Session W Body → Session W Body → Type 0
  IsAllConsumed events s s' =
      (s'.answers ≡ s.answers ++ map acked (before_close events))
      × All (λ (m : Delivery Body). (w : W) × ((consumer w m).1 ≡ none)) (before_close events)

  pub message_loop-acked :
      (events : List (Event Body)) (s s' : Session W Body)
      → message_loop broker consumer events s ≡ some (s', none)
      → IsAllConsumed events s s'
  unfolding message_loop
  message_loop-acked [] s s' e = ground (arith, e)
  message_loop-acked (closed ∷ rest) s s' e = (same_lem s s' none none e, record {})
  message_loop-acked (timed_out ∷ rest) s s' e = message_loop-acked rest s s' e
  message_loop-acked (delivered m ∷ rest) s s' e =
      elim (Round-cases (message_round broker consumer s m)) [
        | inl (s₁, goes) ↦
            let (first, ok) = message_round-goes_on s s₁ m goes in
            let (answers, all) = message_loop-acked rest s₁ s' (
              subst (λ r. passed (message_loop broker consumer rest) r ≡ some (s', none)) goes e) in
            (
              joined_lem s s₁ s' (acked m) (map acked (before_close rest)) first answers,
              ((s.world, ok), all),
            )
        | inr (s₁, last, stops) ↦
            let returned =
              subst (λ r. passed (message_loop broker consumer rest) r ≡ some (s', none)) stops e in
            ground (arith, returned, message_round-ends s s₁ m last stops)
      ]
