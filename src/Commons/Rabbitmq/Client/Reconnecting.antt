-- ===== src/Commons/Rabbitmq/Client/Reconnecting.antt =====
-- How backend/commons/src/rabbitmq/client.go comes by an open channel, and what its second attempt
-- at publishing leaves behind.
use rio_t_preprocessors.Base.{
  ℕ, zero, suc, ◌≤◌, true, false, Option, none, some, ◌∷◌, ◌≡◌, ◌⊎◌, inl, inr, refl, subst, arith,
  Bool-cases, Option-cases,
}
use rio_t_preprocessors.Commons.Rabbitmq.Client.{
  Amqp, Client, Publishing, connect, open_channel, lacks_channel, attempt, ensure_channel,
  retry_after_reconnect, publish_once, publish, again,
}

module _ {W Connection Channel Payload Error : Type 0}
    (amqp : Amqp W Connection Channel Payload Error) where
  -- The client after so many rounds of the loop of `ensureChannel`.
  unfoldable pub attempts :
      ℕ → Client W Connection Channel Payload Error → Client W Connection Channel Payload Error
  attempts zero c = c
  attempts (suc n) c = attempts n (attempt amqp c)

  -- None of the first `m` rounds finds an open channel.
  abbrev pub LacksUntil : ℕ → Client W Connection Channel Payload Error → Type 0
  LacksUntil zero c = Unit
  LacksUntil (suc m) c = (lacks_channel amqp c ≡ true) × LacksUntil m (attempt amqp c)

  abbrev pub FirstOpen : ℕ → Client W Connection Channel Payload Error → Type 0
  FirstOpen n c =
      (m : ℕ) × (m ≤ n)
      × (ensure_channel amqp (suc n) c ≡ some (attempts m c))
      × (lacks_channel amqp (attempts m c) ≡ false)
      × LacksUntil m c

  -- If an attempt to reconnect, the `n`th at the latest, leaves an open channel, then `ensureChannel`
  -- returns: after the first attempt that leaves one, with the channel open.
  pub ensure_channel-recovers :
      (n : ℕ) (c : Client W Connection Channel Payload Error)
      → lacks_channel amqp (attempts n c) ≡ false
      → FirstOpen n c
  unfolding ensure_channel attempts
  ensure_channel-recovers zero c h = (0, omega arith, rw h refl, h, record {})
  ensure_channel-recovers (suc n) c h = elim (Bool-cases (lacks_channel amqp c)) [
    | inl y ↦
        let (m, le, e, open_now, before) = ensure_channel-recovers n (attempt amqp c) h in
        (suc m, omega (arith, le), rw y e, open_now, (y, before))
    | inr open_now ↦ (0, omega arith, rw open_now refl, open_now, record {})
  ]

  attempt-sent : (c : Client W Connection Channel Payload Error) → (attempt amqp c).sent ≡ c.sent
  unfolding attempt open_channel connect
  attempt-sent c = ground arith

  ensure_channel-sent :
      (fuel : ℕ) (c c' : Client W Connection Channel Payload Error)
      → ensure_channel amqp fuel c ≡ some c'
      → c'.sent ≡ c.sent
  unfolding ensure_channel
  ensure_channel-sent zero c c' e = ground (arith, e)
  ensure_channel-sent (suc fuel) c c' e =
      ground (arith, e, ensure_channel-sent fuel (attempt amqp c) c', attempt-sent c)

  -- One attempt after which the client saw no reason to reconnect, or a second one after the error of
  -- the first.
  abbrev pub WasSent :
      Client W Connection Channel Payload Error
      → Publishing Payload
      → Client W Connection Channel Payload Error
      → Option Error
      → Type 0
  WasSent c message c' result =
      ((c'.sent ≡ (message, result) ∷ c.sent) × (retry_after_reconnect amqp c' result ≡ false))
      ⊎ ((err : Error) × (c'.sent ≡ (message, result) ∷ (message, some err) ∷ c.sent))

  publish_once-sent :
      (fuel : ℕ) (c c' : Client W Connection Channel Payload Error) (message : Publishing Payload)
      (result : Option Error)
      → publish_once amqp fuel c message ≡ some (c', result)
      → c'.sent ≡ (message, result) ∷ c.sent
  unfolding publish_once
  publish_once-sent fuel c c' message result e = elim (Option-cases (ensure_channel amqp fuel c)) [
    | inl none_given ↦ ground (arith, e, none_given)
    | inr (ready, given) ↦ ground (arith, e, given, ensure_channel-sent fuel c ready given)
  ]

  again_lem :
      (fuel : ℕ) (c c₁ c' : Client W Connection Channel Payload Error)
      (message : Publishing Payload) (first result : Option Error)
      → c₁.sent ≡ (message, first) ∷ c.sent
      → again amqp fuel message (some (c₁, first)) ≡ some (c', result)
      → WasSent c message c' result
  unfolding retry_after_reconnect
  again_lem fuel c c₁ c' message none result sent e = inl (ground (arith, sent, e))
  again_lem fuel c c₁ c' message (some err) result sent e =
      elim (Bool-cases (retry_after_reconnect amqp c₁ (some err))) [
        | inl y ↦ inr (
          err,
          ground (arith, sent, publish_once-sent fuel c₁ c' message result (ground (arith, y, e))),
        )
        | inr n ↦ inl (ground (arith, n, e, sent))
      ]

  -- Where publishing returns, the message was handed to the broker once, with the result returned and no
  -- reason to reconnect, or a second time, after an error of the first.
  pub publish-sent :
      (fuel : ℕ) (c c' : Client W Connection Channel Payload Error) (message : Publishing Payload)
      (result : Option Error)
      → publish amqp fuel c message ≡ some (c', result)
      → WasSent c message c' result
  unfolding publish
  publish-sent fuel c c' message result e = elim (Option-cases (publish_once amqp fuel c message)) [
    | inl none_given ↦ ground (arith, e, none_given)
    | inr ((c₁, first), given) ↦
        again_lem fuel c c₁ c' message first result
          (publish_once-sent fuel c c₁ message first given)
          (subst (λ found. again amqp fuel message found ≡ some (c', result)) given e)
  ]
