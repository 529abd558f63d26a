-- ===== src/Commons/Rabbitmq/Client/Tests.antt =====
-- A broker that refuses two connections and loses the first message, and the properties at work on it.
use rio_t_preprocessors.Base.{
  ℕ, zero, suc, false, String, Option, none, some, [], ◌∷◌, ◌⊎◌, inl, inr, refl,
}
use rio_t_preprocessors.Base.Text.{contains_text}
use rio_t_preprocessors.Commons.Rabbitmq.Client.{
  Amqp, Client, Publishing, ensure_channel, attempt, open_channel, connect, lacks_connection,
  lacks_channel, publish, publish_once, retry_after_reconnect,
}
use rio_t_preprocessors.Commons.Rabbitmq.Client.Reconnecting.{
  attempts, FirstOpen, WasSent, ensure_channel-recovers, publish-sent,
}

abbrev dial_late : ℕ → ℕ × (String ⊎ ℕ)
dial_late zero = (0, inr 1)
dial_late (suc n) = (n, inl "refused")

abbrev lose_first : ℕ → Publishing String → ℕ × Option String
lose_first zero message = (1, some "channel is not open")
lose_first (suc n) message = (suc n, none)

abbrev late_broker : Amqp ℕ ℕ ℕ String String
late_broker = record {
  dial = dial_late;
  connection_is_closed = λ w conn. false;
  new_channel = λ w conn. (w, inr 2);
  channel_is_closed = λ w channel. false;
  close_channel = λ w channel. w;
  publish_with_context = λ w channel message. lose_first w message;
  queue_declare = λ w channel queue. (w, none);
  pause = λ w. w;
  error_text = λ err. err;
}

abbrev new_client : Client ℕ ℕ ℕ String String
new_client = record { world = 2; conn = none; client_count = 0; channel = none; sent = [] }

abbrev ready_client : Client ℕ ℕ ℕ String String
ready_client = record { world = 0; conn = some 1; client_count = 1; channel = some 2; sent = [] }

abbrev hello : Publishing String
hello = record {
  exchange = "";
  routing_key = "queue";
  content_type = "application/json";
  body = "[]";
  correlation_id = "";
  reply_to = "";
  expiration = "";
}

abbrev served_client : Client ℕ ℕ ℕ String String
served_client = record {
  world = 1;
  conn = some 1;
  client_count = 1;
  channel = some 2;
  sent = (hello, none) ∷ (hello, some "channel is not open") ∷ [];
}

ensure_channel-recovers_example : FirstOpen late_broker 3 new_client
unfolding attempts attempt open_channel connect lacks_connection lacks_channel
ensure_channel-recovers_example = ensure_channel-recovers late_broker 3 new_client refl

publish-sent_example : WasSent late_broker ready_client hello served_client none
unfolding publish publish_once ensure_channel retry_after_reconnect contains_text lacks_channel
    lacks_connection
publish-sent_example = publish-sent late_broker 1 ready_client served_client hello none refl
