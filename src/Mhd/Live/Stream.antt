-- ===== src/Mhd/Live/Stream.antt =====
-- consumeAnyWebSocket, consumeWebSocket, closeQuietStream and runWebSocketLoop in
-- backend/mhd-preprocessor/src/ws_source.go. The WebSocket library is given by what it answers: for
-- each address the error of the dial, or the messages read until one read fails.
use rio_t_preprocessors.Base.{
  ℕ, Bool, String, if◌then◌else◌, Option, none, some, List, [], ◌∷◌, ◌++◌, ◌≡◌, refl, sym, ◌∙◌,
}
use rio_t_preprocessors.Base.Time.{Time, Duration}
use rio_t_preprocessors.Base.Int.{pos, ◌+ℤ◌, ltb_ℤ}
use rio_t_preprocessors.Base.Float.{Float64}
use rio_t_preprocessors.Mhd.Model.{AppConfig}
use rio_t_preprocessors.Mhd.Store.{GtfsStore}
use rio_t_preprocessors.Mhd.Publish.{Formats}
use rio_t_preprocessors.Mhd.Attributes.{Conversions}
use rio_t_preprocessors.Mhd.Live.{Session, Message, process_web_socket_message}

-- The error of a dial, or the messages that are read, the error of the read that fails, and whether
-- `idleSignal` is set by then.
pub data Connection (F : Type 0) : Type 0 where
  refused : String → Connection F
  opened : List (Message F) → String → Bool → Connection F

abbrev pub err_web_socket_idle : String
err_web_socket_idle = "websocket idle timeout"

abbrev pub error_or : String → Option String → String
error_or fallback none = fallback
error_or fallback (some error) = error

-- What the `select` of closeQuietStream chose: `done`, a message at a time, or the timer.
pub data Signal : Type 0 where
  stopped : Signal
  active_at : Time → Signal
  expired : Signal

-- The loop of closeQuietStream with a timer for `deadline`: the deadline at which it closes the
-- connection, if it does. Signals that never come leave it waiting.
unfoldable pub watch_stream : Duration → Time → List Signal → Option Time
watch_stream timeout deadline [] = none
watch_stream timeout deadline (stopped ∷ rest) = none
watch_stream timeout deadline (active_at t ∷ rest) = watch_stream timeout (t +ℤ timeout) rest
watch_stream timeout deadline (expired ∷ rest) = some deadline

unfoldable pub close_quiet_stream : Duration → Time → List Signal → Option Time
unfolding watch_stream
close_quiet_stream timeout started signals =
    if ltb_ℤ timeout (pos 0) then none else watch_stream timeout (started +ℤ timeout) signals

module _ (fl : Float64) (formats : Formats) (local_day : Time → ℕ × ℕ) (config : AppConfig)
    (conv : Conversions fl.F) (store : GtfsStore fl.F) where
  open fl use {F}

  -- The messages of one connection, in order.
  unfoldable pub consume_messages : List (Message F) → Session F → Session F
  consume_messages [] s = s
  consume_messages (message ∷ rest) s =
      consume_messages rest
        (process_web_socket_message fl formats local_day config conv store message s)

  unfoldable pub consume_web_socket : Connection F → Session F → Session F × String
  consume_web_socket (refused error) s = (s, error)
  consume_web_socket (opened messages error idle) s =
      (consume_messages messages s, if idle then err_web_socket_idle else error)

  -- The loop over the addresses, after the last error.
  unfoldable pub consume_each :
      (String → Connection F) → List String → Option String → Session F → Session F × Option String
  consume_each connect [] last s = (s, last)
  consume_each connect (url ∷ urls) last s =
      let (after, error) = consume_web_socket (connect url) s in
      consume_each connect urls (some error) after

  unfoldable pub consume_any_web_socket :
      (String → Connection F) → List String → Session F → Session F × String
  consume_any_web_socket connect urls s =
      let (after, last) = consume_each connect urls none s in
      (after, error_or "no configured websocket endpoints" last)

  -- The rounds of runWebSocketLoop, each with its own connections.
  unfoldable pub run_web_socket_loop :
      List (String → Connection F) → List String → Session F → Session F
  run_web_socket_loop [] urls s = s
  run_web_socket_loop (connect ∷ rounds) urls s =
      run_web_socket_loop rounds urls (consume_any_web_socket connect urls s).0

module _ {F : Type 0} where
  abbrev pub messages_of : Connection F → List (Message F)
  messages_of (refused error) = []
  messages_of (opened messages error idle) = messages

  abbrev pub error_of : Connection F → String
  error_of (refused error) = error
  error_of (opened messages error idle) = if idle then err_web_socket_idle else error

  -- All messages of the connections to a list of addresses.
  unfoldable pub all_messages : (String → Connection F) → List String → List (Message F)
  all_messages connect [] = []
  all_messages connect (url ∷ urls) = messages_of (connect url) ++ all_messages connect urls

  unfoldable pub last_error : (String → Connection F) → List String → String → String
  last_error connect [] found = found
  last_error connect (url ∷ urls) found = last_error connect urls (error_of (connect url))

  -- The messages of all rounds.
  unfoldable pub round_messages : List (String → Connection F) → List String → List (Message F)
  round_messages [] urls = []
  round_messages (connect ∷ rounds) urls = all_messages connect urls ++ round_messages rounds urls

module _ (fl : Float64) (formats : Formats) (local_day : Time → ℕ × ℕ) (config : AppConfig)
    (conv : Conversions fl.F) (store : GtfsStore fl.F) where
  open fl use {F}

  abbrev pub consume : List (Message F) → Session F → Session F
  consume = consume_messages fl formats local_day config conv store

  consume_messages-append :
      (first second : List (Message F)) (s : Session F)
      → consume (first ++ second) s ≡ consume second (consume first s)
  unfolding consume_messages
  consume_messages-append [] second s = refl
  consume_messages-append (message ∷ first) second s =
      consume_messages-append first second
        (process_web_socket_message fl formats local_day config conv store message s)

  consume_web_socket-messages :
      (c : Connection F) (s : Session F)
      → consume_web_socket fl formats local_day config conv store c s
        ≡ (consume (messages_of c) s, error_of c)
  unfolding consume_web_socket consume_messages
  consume_web_socket-messages (refused error) s = refl
  consume_web_socket-messages (opened messages error idle) s = refl

  consume_each-messages :
      (connect : String → Connection F) (urls : List String) (last : Option String) (found : String)
      (s : Session F)
      → ((consume_each fl formats local_day config conv store connect urls last s).0
          ≡ consume (all_messages connect urls) s)
        × (error_or found
              (consume_each fl formats local_day config conv store connect urls last s).1
            ≡ last_error connect urls (error_or found last))
  unfolding consume_each all_messages last_error consume_messages
  consume_each-messages connect [] last found s = (refl, refl)
  consume_each-messages connect (url ∷ urls) last found s =
      let after = consume (messages_of (connect url)) s in
      let ih = consume_each-messages connect urls (some (error_of (connect url))) found after in
      rw (consume_each, consume_web_socket-messages (connect url) s)
        (
          ih.0
              ∙ sym (
                  consume_messages-append (messages_of (connect url)) (all_messages connect urls)
                    s),
          ih.1,
        )

  -- Every address is tried, whatever becomes of those before it: the messages of all connections are
  -- processed in the order of the addresses. The call always returns an error: that of the last
  -- address, or the one for a configuration without an address.
  pub consume_any_web_socket-messages :
      (connect : String → Connection F) (urls : List String) (s : Session F)
      → consume_any_web_socket fl formats local_day config conv store connect urls s ≡ (
        consume (all_messages connect urls) s,
        last_error connect urls "no configured websocket endpoints",
      )
  unfolding consume_any_web_socket
  consume_any_web_socket-messages connect urls s =
      let m = consume_each-messages connect urls none "no configured websocket endpoints" s in
      rw (m.0, m.1) refl

  -- The rounds of the loop together process the messages of all of their connections, in order.
  pub run_web_socket_loop-messages :
      (rounds : List (String → Connection F)) (urls : List String) (s : Session F)
      → run_web_socket_loop fl formats local_day config conv store rounds urls s
        ≡ consume (round_messages rounds urls) s
  unfolding run_web_socket_loop round_messages consume_messages
  run_web_socket_loop-messages [] urls s = refl
  run_web_socket_loop-messages (connect ∷ rounds) urls s =
      rw (run_web_socket_loop, consume_any_web_socket-messages connect urls s)
        (run_web_socket_loop-messages rounds urls (consume (all_messages connect urls) s)
          ∙ sym
              (consume_messages-append (all_messages connect urls) (round_messages rounds urls) s))
