-- ===== src/Mhd/Live/Ignored.antt =====
-- processWebSocketMessage in backend/mhd-preprocessor/src/ws_source.go: messages without a match, and
-- messages without a state.
use rio_t_preprocessors.Base.{
  ℕ, Bool, true, false, string_eq, Option, none, some, List, [], ◌∷◌, ◌≡◌, refl, subst, sym, ◌∙◌,
}
use rio_t_preprocessors.Base.Maps.{lookup, lookup-insert_self}
use rio_t_preprocessors.Base.Text.{trim_space}
use rio_t_preprocessors.Base.Time.{Time}
use rio_t_preprocessors.Base.Float.{Float64}
use rio_t_preprocessors.Commons.Json.{Value}
use rio_t_preprocessors.Mhd.Model.{AppConfig, TripMatch, InstanceState}
use rio_t_preprocessors.Mhd.Store.{GtfsStore}
use rio_t_preprocessors.Mhd.Publish.{Formats}
use rio_t_preprocessors.Mhd.Runtime.{Runtime, process_matched_record, refresh_state}
use rio_t_preprocessors.Mhd.Attributes.{
  Conversions, RawEnvelope, parse_raw_envelope, lookup_attribute, extract_string, extract_bool,
}
use rio_t_preprocessors.Mhd.Live.{
  Session, Message, live_match, process_match, process_live_record, build_live_record,
  build_live_record_from_payload, inactive_of, inactive_by_state, process_envelope,
  process_web_socket_message, option_or,
}
use rio_t_preprocessors.Mhd.Live.Stream.{consume_messages}

abbrev pub activity_of : Option InstanceState → Option Bool
activity_of none = none
activity_of (some state) = some state.currently_active

nil_state :
    {F : Type 0} (conv : Conversions F) (inactive : Bool)
    → inactive_by_state inactive (extract_string conv Value.null) ≡ true
unfolding inactive_by_state extract_string trim_space
nil_state conv true = refl
nil_state conv false = refl

module _ (fl : Float64) (formats : Formats) (local_day : Time → ℕ × ℕ) (config : AppConfig)
    (conv : Conversions fl.F) (store : GtfsStore fl.F) where
  open fl use {F}

  abbrev pub matched : Message F → Runtime → Option (RawEnvelope F) → Option (TripMatch F)
  matched message rt none = none
  matched message rt (some envelope) =
      live_match fl formats local_day config conv store
        (build_live_record fl formats local_day config conv store message envelope) rt

  -- No message of the list can be read and has a match.
  abbrev pub NoneMatches : Runtime → List (Message F) → Type 0
  NoneMatches rt [] = Unit
  NoneMatches rt (message ∷ rest) =
      (matched message rt (parse_raw_envelope message.tree) ≡ none) × NoneMatches rt rest

  -- The rest of a session, without its logs.
  abbrev pub SameOutcome : Session F → Session F → Type 0
  SameOutcome s t =
      (s.runtime ≡ t.runtime) × (s.registrations ≡ t.registrations) × (s.states ≡ t.states)

  process_envelope-unmatched :
      (message : Message F) (envelope : Option (RawEnvelope F)) (s : Session F)
      → matched message s.runtime envelope ≡ none
      → SameOutcome (process_envelope fl formats local_day config conv store message envelope s) s
  unfolding process_envelope process_live_record process_match
  process_envelope-unmatched message none s h = (refl, refl, refl)
  process_envelope-unmatched message (some envelope) s h = rw h (refl, refl, refl)

  -- Messages that cannot be read or have no match change no instance and publish nothing, however
  -- many there are.
  pub consume_messages-unmatched :
      (messages : List (Message F)) (s : Session F)
      → NoneMatches s.runtime messages
      → SameOutcome (consume_messages fl formats local_day config conv store messages s) s
  unfolding consume_messages process_web_socket_message
  consume_messages-unmatched [] s h = (refl, refl, refl)
  consume_messages-unmatched (message ∷ rest) s h =
      let first = process_envelope-unmatched message (parse_raw_envelope message.tree) s h.0 in
      let after = process_web_socket_message fl formats local_day config conv store message s in
      let others =
        consume_messages-unmatched rest after
          (subst (λ rt. NoneMatches rt rest) (sym first.0) h.1) in
      (others.0 ∙ first.0, others.1 ∙ first.1, others.2 ∙ first.2)

  missing_state-inactive :
      (message : Message F) (envelope : RawEnvelope F)
      → lookup_attribute envelope.attributes ("State" ∷ []) ≡ Value.null
      → (build_live_record fl formats local_day config conv store message envelope).is_inactive
        ≡ true
  unfolding build_live_record build_live_record_from_payload inactive_of
  missing_state-inactive message envelope h = rw h (
      nil_state conv
        (option_or false (extract_bool (lookup_attribute envelope.attributes ("isinactive" ∷ [])))))

  -- A message without the attribute "State" (or with a null there) never leaves the instance of its
  -- trip active: the missing value is read as a text that is neither empty nor "0".
  pub missing_state-activity :
      (message : Message F) (envelope : RawEnvelope F) (m : TripMatch F) (s : Session F)
      → parse_raw_envelope message.tree ≡ some envelope
      → lookup_attribute envelope.attributes ("State" ∷ []) ≡ Value.null
      → matched message s.runtime (some envelope) ≡ some m
      → activity_of (
          lookup m.definition.uid
            (process_web_socket_message fl formats local_day config conv store message
              s).runtime.instance_states)
        ≡ some false
  unfolding process_web_socket_message process_envelope process_live_record process_match
      process_matched_record refresh_state
  missing_state-activity message envelope m s parsed missing found =
      let live = build_live_record fl formats local_day config conv store message envelope in
      rw (parsed, found)
        (rw (lookup-insert_self m.definition.uid, missing_state-inactive message envelope missing)
          refl)
