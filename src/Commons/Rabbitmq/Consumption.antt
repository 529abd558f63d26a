-- ===== src/Commons/Rabbitmq/Consumption.antt =====
-- backend/commons/src/rabbitmq/client.go: consuming messages. What a `select` picks, one after the
-- other, is a list of events; when it ends, the function still waits, and returns `none`. The calls of
-- `amqp091-go` and the functions that handle a message are parameters, on a state `W`.
pub mod Answers
pub mod Payloads
pub mod Stopping
mod Tests
use rio_t_preprocessors.Base.{
  Bool, true, false, String, string_eq, ◌==◌, if◌then◌else◌, Option, none, some, List, [], ◌∷◌,
  ◌++◌, ◌⊎◌, inl, inr,
}
use rio_t_preprocessors.Base.Text.{◌⧺◌}

-- `amqp.Delivery`
pub record Delivery (Body : Type 0) : Type 0 where
  pub correlation_id : String
  pub content_type : String
  pub body : Body

pub data Event (Body : Type 0) : Type 0 where
  delivered : Delivery Body → Event Body
  closed : Event Body
  timed_out : Event Body

-- `Ack`, and `Nack` without and with a return to the queue.
pub data Answer (Body : Type 0) : Type 0 where
  acked : Delivery Body → Answer Body
  discarded : Delivery Body → Answer Body
  requeued : Delivery Body → Answer Body

pub record Broker (W Body Error : Type 0) : Type 0 where
  pub qos : W → W × Option Error
  pub consume : W → String → String → W × Option Error
  pub cancel : W → String → W × Option Error
  pub answer : W → Answer Body → W × Option Error
  -- `fmt.Errorf`
  pub error_of : String → Error

-- The state, with the answers that were given so far, the last one last.
pub record Session (W Body : Type 0) : Type 0 where
  pub world : W
  pub answers : List (Answer Body)

-- How one message ends: the loop goes on, or the function returns.
pub data Round (W Body Error : Type 0) : Type 0 where
  goes_on : Session W Body → Round W Body Error
  ends : Session W Body → Option Error → Round W Body Error

module _ {W Body Error : Type 0} (broker : Broker W Body Error) where
  abbrev answered : Session W Body → Answer Body → W × Option Error → Session W Body × Option Error
  answered s a (w, result) = (record { world = w; answers = s.answers ++ (a ∷ []) }, result)

  unfoldable pub give : Session W Body → Answer Body → Session W Body × Option Error
  give s a = answered s a (broker.answer s.world a)

  abbrev pub go_on_unless : Session W Body × Option Error → Round W Body Error
  go_on_unless (s, some err) = ends s (some err)
  go_on_unless (s, none) = goes_on s

  module _ {T : Type 0} (decode : Body → Error ⊎ T)
      (handle : W → T → Delivery Body → W × (Bool × Option Error)) (correlation_id : String) where
    abbrev acked_round : Bool → Session W Body × Option Error → Round W Body Error
    acked_round done (s, some err) = ends s (some err)
    acked_round done (s, none) = if done then ends s none else goes_on s

    abbrev handled : Delivery Body → Session W Body → W × (Bool × Option Error) → Round W Body Error
    handled m s (w, (done, some err)) =
        ends (give (record s { world = w }) (discarded m)).0 (some err)
    handled m s (w, (done, none)) = acked_round done (give (record s { world = w }) (acked m))

    abbrev decoded_round : Delivery Body → Session W Body → Error ⊎ T → Round W Body Error
    decoded_round m s (inl err) = ends (give s (discarded m)).0 (some err)
    decoded_round m s (inr resp) = handled m s (handle s.world resp m)

    -- What `ConsumeRPCStream` does with one message.
    unfoldable pub rpc_round : Session W Body → Delivery Body → Round W Body Error
    unfolding give
    rpc_round s m =
        if m.correlation_id == correlation_id
        then decoded_round m s (decode m.body)
        else goes_on (give s (discarded m)).0

    -- Without a timeout its channel is nil, and never ready.
    unfoldable pub consume_rpc_stream :
        Bool → List (Event Body) → Session W Body → Option (Session W Body × Option Error)
    consume_rpc_stream has_timeout [] s = none
    consume_rpc_stream has_timeout (closed ∷ rest) s =
        some (s, some (broker.error_of "channel closed"))
    consume_rpc_stream has_timeout (timed_out ∷ rest) s =
        let later = consume_rpc_stream has_timeout rest s in
        if has_timeout
        then some (s, some (broker.error_of "timeout waiting for response"))
        else later
    consume_rpc_stream has_timeout (delivered m ∷ rest) s = elim (rpc_round s m) [
      | goes_on s' ↦ consume_rpc_stream has_timeout rest s'
      | ends s' result ↦ some (s', result)
    ]

  module _ (consumer : W → Delivery Body → W × Option Error) where
    abbrev consumed : Delivery Body → Session W Body → W × Option Error → Round W Body Error
    consumed m s (w, some err) = ends (record s { world = w }) (some err)
    consumed m s (w, none) = go_on_unless (give (record s { world = w }) (acked m))

    -- The body of the loop of `SetupMessageConsumption`; the loop ends with the channel.
    unfoldable pub message_round : Session W Body → Delivery Body → Round W Body Error
    unfolding give
    message_round s m = consumed m s (consumer s.world m)

    unfoldable pub message_loop :
        List (Event Body) → Session W Body → Option (Session W Body × Option Error)
    message_loop [] s = none
    message_loop (closed ∷ rest) s = some (s, none)
    message_loop (timed_out ∷ rest) s = message_loop rest s
    message_loop (delivered m ∷ rest) s = elim (message_round s m) [
      | goes_on s' ↦ message_loop rest s'
      | ends s' result ↦ some (s', result)
    ]

    -- `Qos` and `Consume`, before the loop; either of them may fail.
    abbrev pub started :
        (Session W Body → Option (Session W Body × Option Error))
        → List (Answer Body)
        → W × Option Error
        → Option (Session W Body × Option Error)
    started go answers (w, some err) = some (record { world = w; answers = answers }, some err)
    started go answers (w, none) = go record { world = w; answers = answers }

    -- After `ensureChannel`.
    unfoldable pub setup_message_consumption :
        String → List (Event Body) → Session W Body → Option (Session W Body × Option Error)
    setup_message_consumption queue events s =
        started
          (λ ready.
            started (message_loop events) ready.answers (broker.consume ready.world queue ""))
          s.answers (broker.qos s.world)

    -- `Cancel`, and what comes after it unless it fails.
    abbrev cancelled :
        String
        → (Session W Body → Session W Body × Option Error)
        → Session W Body
        → Session W Body × Option Error
    cancelled name next s =
        let (w, result) = broker.cancel s.world name in
        elim result [
          | some err ↦ (record s { world = w }, some err)
          | none ↦ next (record s { world = w })
        ]

    abbrev finish : Session W Body → Session W Body × Option Error
    finish s = (s, none)

    abbrev consume_own : String → Delivery Body → Session W Body → Session W Body × Option Error
    consume_own name m s =
        let (w, result) = consumer s.world m in
        elim result [
          | some err ↦ (record s { world = w }, some err)
          | none ↦ cancelled name finish (record s { world = w })
        ]

    abbrev unless_failed :
        (Session W Body → Session W Body × Option Error)
        → Session W Body × Option Error
        → Session W Body × Option Error
    unless_failed next (s, some err) = (s, some err)
    unless_failed next (s, none) = next s

    abbrev ended : Session W Body × Option Error → Round W Body Error
    ended (s, result) = ends s result

    -- What `SetupMessageConsumptionWithCorrelationId` does with one message: one of another caller goes
    -- back to the queue; its own is acknowledged first, and consumed when its consumer is cancelled.
    unfoldable pub correlated_round : String → Session W Body → Delivery Body → Round W Body Error
    unfolding give
    correlated_round correlation_id s m =
        if m.correlation_id == correlation_id
        then ended (
            unless_failed
              (cancelled (correlation_id ⧺ "-consumer")
                (consume_own (correlation_id ⧺ "-consumer") m))
              (give s (acked m)))
        else go_on_unless (give s (requeued m))

    abbrev timeout_end : Session W Body → Session W Body × Option Error
    timeout_end s = (
      s,
      some (
          broker.error_of
            "SetupMessageConsumptionWithCorrelationId | message consumption timed out after 100 seconds"),
    )

    unfoldable pub correlated_loop :
        String → List (Event Body) → Session W Body → Option (Session W Body × Option Error)
    correlated_loop correlation_id [] s = none
    correlated_loop correlation_id (closed ∷ rest) s = some (
      s,
      some (broker.error_of "SetupMessageConsumptionWithCorrelationId | Message channel closed"),
    )
    correlated_loop correlation_id (timed_out ∷ rest) s =
        some (cancelled (correlation_id ⧺ "-consumer") timeout_end s)
    correlated_loop correlation_id (delivered m ∷ rest) s =
        elim (correlated_round correlation_id s m) [
          | goes_on s' ↦ correlated_loop correlation_id rest s'
          | ends s' result ↦ some (s', result)
        ]

    unfoldable pub setup_message_consumption_with_correlation_id :
        String
        → String
        → List (Event Body)
        → Session W Body
        → Option (Session W Body × Option Error)
    setup_message_consumption_with_correlation_id queue correlation_id events s =
        started
          (λ ready.
            started (correlated_loop correlation_id events) ready.answers
              (broker.consume ready.world queue (correlation_id ⧺ "-consumer")))
          s.answers (broker.qos s.world)

  module _ {T : Type 0} (decode : Body → Error ⊎ T)
      (consumer : W → T → Delivery Body → W × Option Error) where
    abbrev pub consume_decoded : W → Delivery Body → Error ⊎ T → W × Option Error
    consume_decoded w m (inl err) = (w, some err)
    consume_decoded w m (inr payload) = consumer w payload m

    -- The function that `ConsumeJSONMessages` makes of a consumer of payloads.
    unfoldable pub consume_json : W → Delivery Body → W × Option Error
    consume_json w m =
        if m.content_type == "application/json"
        then consume_decoded w m (decode m.body)
        else (w, some (broker.error_of ("incorrect message content type: " ⧺ m.content_type)))

    unfoldable pub consume_json_messages :
        String → List (Event Body) → Session W Body → Option (Session W Body × Option Error)
    consume_json_messages queue events s = setup_message_consumption consume_json queue events s

    unfoldable pub consume_json_messages_with_access_to_delivery :
        String
        → String
        → List (Event Body)
        → Session W Body
        → Option (Session W Body × Option Error)
    consume_json_messages_with_access_to_delivery queue correlation_id events s =
        if correlation_id == ""
        then setup_message_consumption consume_json queue events s
        else setup_message_consumption_with_correlation_id consume_json queue correlation_id events
            s
