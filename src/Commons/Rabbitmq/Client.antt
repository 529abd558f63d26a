-- ===== src/Commons/Rabbitmq/Client.antt =====
-- backend/commons/src/rabbitmq/client.go: the connection that the clients share, a client's channel,
-- and publishing through it. The library `amqp091-go` and the broker behind it are the record `Amqp`
-- of operations on a state `W`; a read of `IsClosed` shows what the last of them left.
pub mod Reconnecting
mod Tests
use rio_t_preprocessors.Base.{
  ℕ, zero, suc, ◌+◌, Bool, true, false, ◌&&◌, ◌||◌, not, String, if◌then◌else◌, Option, none, some,
  List, [], ◌∷◌, ◌++◌, ◌⊎◌, inl, inr, ◌==◌, string_eq,
}
use rio_t_preprocessors.Base.Text.{contains_text}

-- `amqp.Publishing`, with the exchange and the routing key it goes to. A field that the source does not
-- set is empty.
pub record Publishing (Payload : Type 0) : Type 0 where
  pub exchange : String
  pub routing_key : String
  pub content_type : String
  pub body : Payload
  pub correlation_id : String
  pub reply_to : String
  pub expiration : String

pub record Amqp (W Connection Channel Payload Error : Type 0) : Type 0 where
  pub dial : W → W × (Error ⊎ Connection)
  pub connection_is_closed : W → Connection → Bool
  pub new_channel : W → Connection → W × (Error ⊎ Channel)
  pub channel_is_closed : W → Channel → Bool
  pub close_channel : W → Channel → W
  pub publish_with_context : W → Channel → Publishing Payload → W × Option Error
  pub queue_declare : W → Channel → String → W × Option Error
  -- `time.Sleep(connectRetryDelay)`
  pub pause : W → W
  pub error_text : Error → String

-- A client with the connection manager it uses. `sent` records each call of `PublishWithContext` and
-- its result, the last one first.
pub record Client (W Connection Channel Payload Error : Type 0) : Type 0 where
  pub world : W
  pub conn : Option Connection
  pub client_count : ℕ
  pub channel : Option Channel
  pub sent : List (Publishing Payload × Option Error)

-- `GetPayloadOrDefault("")`
abbrev pub or_empty : Option String → String
or_empty none = ""
or_empty (some s) = s

module _ {W Connection Channel Payload Error : Type 0}
    (amqp : Amqp W Connection Channel Payload Error) where
  abbrev pub State : Type 0
  State = Client W Connection Channel Payload Error

  -- `c.conn == nil || c.conn.IsClosed()`, and the same of a channel.
  unfoldable pub lacks_connection : Client W Connection Channel Payload Error → Bool
  lacks_connection c = elim c.conn [
    | none ↦ true
    | some conn ↦ amqp.connection_is_closed c.world conn
  ]

  unfoldable pub lacks_channel : Client W Connection Channel Payload Error → Bool
  lacks_channel c = elim c.channel [
    | none ↦ true
    | some channel ↦ amqp.channel_is_closed c.world channel
  ]

  abbrev dialled : State → W × (Error ⊎ Connection) → State × Option Error
  dialled c (w, inl err) = (record c { world = w }, some err)
  dialled c (w, inr conn) =
      (record c { world = w; conn = some conn; client_count = c.client_count + 1 }, none)

  unfoldable pub connect :
      Client W Connection Channel Payload Error
      → Client W Connection Channel Payload Error × Option Error
  unfolding lacks_connection
  connect c =
      if lacks_connection c
      then dialled c (amqp.dial c.world)
      else (record c { client_count = c.client_count + 1 }, none)

  abbrev opened : State → W × (Error ⊎ Channel) → State × Option Error
  opened c (w, inl err) = (record c { world = w }, some err)
  opened c (w, inr channel) = (record c { world = w; channel = some channel }, none)

  abbrev open_on : State × Option Error → State × Option Error
  open_on (c, some err) = (c, some err)
  open_on (c, none) = elim c.conn [
    | none ↦ (c, none)
    | some conn ↦ opened c (amqp.new_channel c.world conn)
  ]

  -- A connection is there once `connect` succeeds.
  unfoldable pub open_channel :
      Client W Connection Channel Payload Error
      → Client W Connection Channel Payload Error × Option Error
  unfolding connect
  open_channel c = open_on (connect c)

  abbrev paused_on_error : State × Option Error → State
  paused_on_error (c, some err) = record c { world = amqp.pause c.world }
  paused_on_error (c, none) = c

  -- The body of the loop of `ensureChannel`.
  unfoldable pub attempt :
      Client W Connection Channel Payload Error → Client W Connection Channel Payload Error
  unfolding open_channel
  attempt c = paused_on_error (open_channel c)

  -- `ensureChannel`, on fuel; `none` means that the fuel ran out.
  unfoldable pub ensure_channel :
      ℕ
      → Client W Connection Channel Payload Error
      → Option (Client W Connection Channel Payload Error)
  unfolding lacks_channel attempt
  ensure_channel zero c = none
  ensure_channel (suc fuel) c =
      let next = ensure_channel fuel (attempt c) in if lacks_channel c then next else some c

  unfoldable pub retry_after_reconnect :
      Client W Connection Channel Payload Error → Option Error → Bool
  unfolding lacks_connection contains_text
  retry_after_reconnect c none = false
  retry_after_reconnect c (some err) =
      elim c.channel [ none ↦ false | some channel ↦ amqp.channel_is_closed c.world channel ]
      || lacks_connection c
      || contains_text (amqp.error_text err) "channel/connection is not open"
      || contains_text (amqp.error_text err) "connection is not open"
      || contains_text (amqp.error_text err) "channel is not open"

  abbrev published : State → Publishing Payload → W × Option Error → State × Option Error
  published c message (w, result) =
      (record c { world = w; sent = (message, result) ∷ c.sent }, result)

  -- `ensureChannel` and one call of `PublishWithContext`.
  unfoldable pub publish_once :
      ℕ
      → Client W Connection Channel Payload Error
      → Publishing Payload
      → Option (Client W Connection Channel Payload Error × Option Error)
  unfolding ensure_channel
  publish_once fuel c message = elim (ensure_channel fuel c) [
    | none ↦ none
    | some ready ↦ elim ready.channel [
      | none ↦ none
      | some channel ↦
          some (published ready message (amqp.publish_with_context ready.world channel message))
    ]
  ]

  abbrev pub again :
      ℕ → Publishing Payload → Option (State × Option Error) → Option (State × Option Error)
  again fuel message none = none
  again fuel message (some (c, result)) =
      if retry_after_reconnect c result then publish_once fuel c message else some (c, result)

  -- What the three functions that publish share: a second attempt after a lost connection.
  unfoldable pub publish :
      ℕ
      → Client W Connection Channel Payload Error
      → Publishing Payload
      → Option (Client W Connection Channel Payload Error × Option Error)
  unfolding publish_once retry_after_reconnect
  publish fuel c message = again fuel message (publish_once fuel c message)

  unfoldable pub publish_json_message :
      ℕ
      → Client W Connection Channel Payload Error
      → Option String
      → Option String
      → Payload
      → Option (Client W Connection Channel Payload Error × Option Error)
  unfolding publish
  publish_json_message fuel c exchange routing_key payload = publish fuel c record {
    exchange = or_empty exchange;
    routing_key = or_empty routing_key;
    content_type = "application/json";
    body = payload;
    correlation_id = "";
    reply_to = "";
    expiration = "";
  }

  -- The expiration is the timeout of ten seconds in milliseconds.
  unfoldable pub publish_json_message_rpc :
      ℕ
      → Client W Connection Channel Payload Error
      → Option String
      → Option String
      → Payload
      → String
      → Option String
      → Option (Client W Connection Channel Payload Error × Option Error)
  unfolding publish
  publish_json_message_rpc fuel c exchange routing_key payload correlation_id reply_to =
      publish fuel c record {
        exchange = or_empty exchange;
        routing_key = or_empty routing_key;
        content_type = "application/json";
        body = payload;
        correlation_id = correlation_id;
        reply_to = or_empty reply_to;
        expiration = "10000";
      }

  unfoldable pub publish_json_message_with_reply_to :
      ℕ
      → Client W Connection Channel Payload Error
      → Option String
      → Option String
      → Payload
      → String
      → Option String
      → Option (Client W Connection Channel Payload Error × Option Error)
  unfolding publish
  publish_json_message_with_reply_to fuel c exchange routing_key payload correlation_id reply_to =
      publish fuel c record {
        exchange = or_empty exchange;
        routing_key = or_empty routing_key;
        content_type = "application/json";
        body = payload;
        correlation_id = correlation_id;
        reply_to = or_empty reply_to;
        expiration = "";
      }

  abbrev declared : State → W × Option Error → State × Option Error
  declared c (w, result) = (record c { world = w }, result)

  unfoldable pub declare_queue :
      ℕ
      → Client W Connection Channel Payload Error
      → String
      → Option (Client W Connection Channel Payload Error × Option Error)
  unfolding ensure_channel
  declare_queue fuel c queue = elim (ensure_channel fuel c) [
    | none ↦ none
    | some ready ↦ elim ready.channel [
      | none ↦ none
      | some channel ↦ some (declared ready (amqp.queue_declare ready.world channel queue))
    ]
  ]

  -- `release` does nothing; an error of closing the channel is only logged.
  unfoldable pub dispose :
      Client W Connection Channel Payload Error → Client W Connection Channel Payload Error
  dispose c = elim c.channel [
    | none ↦ c
    | some channel ↦
        if amqp.channel_is_closed c.world channel
        then c
        else record c { world = amqp.close_channel c.world channel }
  ]
