-- ===== src/Commons/Rabbitmq/Consumption/Tests.antt =====
-- Runs of the loops on a few events.
use rio_t_preprocessors.Base.{
  ℕ, suc, Bool, true, leb, String, string_eq, Option, none, List, [], ◌∷◌, ◌⊎◌, inr, map, ◌++◌, All,
  refl, ◌≡◌,
}
use rio_t_preprocessors.Commons.Rabbitmq.Consumption.{
  Delivery, Event, delivered, closed, acked, discarded, requeued, Broker, Session, give, rpc_round,
  consume_rpc_stream, message_round, message_loop, correlated_round, correlated_loop, consume_json,
  setup_message_consumption, consume_json_messages,
}
use rio_t_preprocessors.Commons.Rabbitmq.Consumption.Answers.{
  AnswersAll, consume_rpc_stream-answers,
}
use rio_t_preprocessors.Commons.Rabbitmq.Consumption.Stopping.{before_close}
use rio_t_preprocessors.Commons.Rabbitmq.Consumption.Payloads.{
  IsTaken, IsCorrelated, consume_json_messages-IsTaken, correlated_loop-answers,
}

abbrev plain_broker : Broker ℕ String String
plain_broker = record {
  qos = λ w. (w, none);
  consume = λ w queue name. (w, none);
  cancel = λ w name. (w, none);
  answer = λ w a. (w, none);
  error_of = λ text. text;
}

abbrev message : String → Delivery String
message correlation_id = record {
  correlation_id = correlation_id;
  content_type = "application/json";
  body = "{}";
}

abbrev decode_any : String → String ⊎ String
decode_any body = inr body

-- The second message is the last one that is wanted.
abbrev two_replies : ℕ → String → Delivery String → ℕ × (Bool × Option String)
two_replies w payload m = (suc w, (leb 1 w, none))

abbrev count_payload : ℕ → String → Delivery String → ℕ × Option String
count_payload w payload m = (suc w, none)

abbrev count_message : ℕ → Delivery String → ℕ × Option String
count_message w m = (suc w, none)

abbrev empty_session : Session ℕ String
empty_session = record { world = 0; answers = [] }

abbrev replies : List (Event String)
replies =
    delivered (message "a")
    ∷ delivered (message "b")
    ∷ delivered (message "a")
    ∷ delivered (message "a")
    ∷ closed
    ∷ []

abbrev after_replies : Session ℕ String
after_replies = record {
  world = 2;
  answers = acked (message "a") ∷ discarded (message "b") ∷ acked (message "a") ∷ [];
}

consume_rpc_stream-answers_example :
    AnswersAll plain_broker decode_any two_replies "a" true replies empty_session after_replies none
unfolding consume_rpc_stream rpc_round give
consume_rpc_stream-answers_example =
    consume_rpc_stream-answers plain_broker decode_any two_replies "a" true replies empty_session
      after_replies none refl

abbrev all_acked : Session ℕ String
all_acked = record { world = 2; answers = acked (message "a") ∷ acked (message "b") ∷ [] }

abbrev two_then_closed : List (Event String)
two_then_closed = delivered (message "a") ∷ delivered (message "b") ∷ closed ∷ []

consume_json_messages-IsTaken_example :
    (all_acked.answers ≡ empty_session.answers ++ map acked (before_close two_then_closed))
    × All (IsTaken plain_broker decode_any count_payload) (before_close two_then_closed)
unfolding consume_json_messages setup_message_consumption message_loop message_round consume_json
    give
consume_json_messages-IsTaken_example =
    consume_json_messages-IsTaken plain_broker decode_any count_payload "queue" two_then_closed
      empty_session all_acked refl

abbrev own_acked : Session ℕ String
own_acked = record { world = 1; answers = requeued (message "a") ∷ acked (message "b") ∷ [] }

correlated_loop-answers_example :
    IsCorrelated plain_broker count_message "b" two_then_closed empty_session own_acked none
unfolding correlated_loop correlated_round give
correlated_loop-answers_example =
    correlated_loop-answers plain_broker count_message "b" two_then_closed empty_session own_acked
      none refl
