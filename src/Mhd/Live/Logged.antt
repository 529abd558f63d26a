-- ===== src/Mhd/Live/Logged.antt =====
-- logUnmatchedRecord and logSampleLivePayload in backend/mhd-preprocessor/src/ws_source.go: what
-- limits the package's logs.
use rio_t_preprocessors.Base.{
  ℕ, zero, suc, false, ◌+◌, ◌≤◌, String, string_eq, Option, none, some, List, [], ◌∷◌, ◌++◌,
  append-nil, length-append, ◌≡◌, refl, sym, ◌∙◌, ap, subst, arith, length, IsDistinct, inl, inr,
  Bool-cases, leb,
}
use rio_t_preprocessors.Base.Maps.{Dict, keys, has, lookup, insert, insert-IsDistinct}
use rio_t_preprocessors.Base.Time.{Time}
use rio_t_preprocessors.Base.Float.{Float64}
use rio_t_preprocessors.Mhd.Model.{AppConfig, LiveRecord, TripMatch}
use rio_t_preprocessors.Mhd.Store.{GtfsStore}
use rio_t_preprocessors.Mhd.Publish.{Formats}
use rio_t_preprocessors.Mhd.Runtime.{Oracle}
use rio_t_preprocessors.Mhd.Attributes.{Conversions, RawEnvelope, parse_raw_envelope}
use rio_t_preprocessors.Mhd.Live.{
  LogLine, unmatched_record, sample_payload, LogState, Session, Message, log_unmatched_key,
  log_sample_live_payload, unmatched_key, live_match, process_match, process_live_record,
  build_live_record, process_envelope, process_web_socket_message,
}
use rio_t_preprocessors.Mhd.Live.Stream.{consume_messages}

-- The keys of the records that the lines are about, and the numbers of the payloads, in order.
unfoldable pub record_keys : List LogLine → List String
record_keys [] = []
record_keys (unmatched_record key ∷ lines) = key ∷ record_keys lines
record_keys (sample_payload number message ∷ lines) = record_keys lines

unfoldable pub payload_numbers : List LogLine → List ℕ
payload_numbers [] = []
payload_numbers (unmatched_record key ∷ lines) = payload_numbers lines
payload_numbers (sample_payload number message ∷ lines) = number ∷ payload_numbers lines

-- The numbers from 1 to `n`.
unfoldable pub up_to : ℕ → List ℕ
up_to zero = []
up_to (suc n) = up_to n ++ (suc n ∷ [])

-- At most ten lines about records have been written, no two for one key, and at most five lines about
-- payloads, numbered from 1 on; the package's variables agree with the lines.
abbrev pub IsBounded : LogState → Type 0
IsBounded logs =
    IsDistinct (record_keys logs.lines)
    × (length (record_keys logs.lines) ≤ 10)
    × (length (payload_numbers logs.lines) ≤ 5)
    × (payload_numbers logs.lines ≡ up_to logs.live_payloads_logged)
    × (keys logs.unmatched_records_logged ≡ record_keys logs.lines)

record_keys-append :
    (first second : List LogLine)
    → record_keys (first ++ second) ≡ record_keys first ++ record_keys second
unfolding record_keys
record_keys-append [] second = refl
record_keys-append (unmatched_record key ∷ first) second =
    ap (λ (l : List String). key ∷ l) (record_keys-append first second)
record_keys-append (sample_payload number message ∷ first) second = record_keys-append first second

payload_numbers-append :
    (first second : List LogLine)
    → payload_numbers (first ++ second) ≡ payload_numbers first ++ payload_numbers second
unfolding payload_numbers
payload_numbers-append [] second = refl
payload_numbers-append (unmatched_record key ∷ first) second = payload_numbers-append first second
payload_numbers-append (sample_payload number message ∷ first) second =
    ap (λ (l : List ℕ). number ∷ l) (payload_numbers-append first second)

length-up_to : (n : ℕ) → length (up_to n) ≡ n
unfolding up_to
length-up_to zero = refl
length-up_to (suc n) = omega (arith, length-append (up_to n) (suc n ∷ []), length-up_to n)

keys-insert_new :
    (key : String) (m : Dict String (Unit {0}))
    → has key m ≡ false
    → keys (insert key tt m) ≡ keys m ++ (key ∷ [])
unfolding insert lookup
keys-insert_new key [] h = refl
keys-insert_new key ((first, unit) ∷ rest) h =
    let later = keys-insert_new key rest in ground (arith, later, h)

length-keys : (m : Dict String (Unit {0})) → length (keys m) ≡ length m
length-keys [] = refl
length-keys ((key, unit) ∷ rest) = ap suc (length-keys rest)

log_unmatched_key-IsBounded :
    (key : String) (logs : LogState) → IsBounded logs → IsBounded (log_unmatched_key key logs)
unfolding log_unmatched_key record_keys payload_numbers
log_unmatched_key-IsBounded key logs h =
    let written = logs.unmatched_records_logged in
    let (distinct, few, few_payloads, numbers, agree) = h in
    elim (Bool-cases (leb 10 (length written))) [
      | inl y ↦ rw y h
      | inr n ↦ elim (Bool-cases (has key written)) [
        | inl y ↦ rw (n, y) h
        | inr m ↦
            let added : keys (insert key tt written) ≡ record_keys logs.lines ++ (key ∷ []) =
              keys-insert_new key written m ∙ ap (λ (l : List String). l ++ (key ∷ [])) agree in
            let count : length (record_keys logs.lines) ≡ length written =
              ap (λ (l : List String). length l) (sym agree) ∙ length-keys written in
            rw
              (
                n,
                m,
                record_keys-append logs.lines (unmatched_record key ∷ []),
                payload_numbers-append logs.lines (unmatched_record key ∷ []),
                append-nil (payload_numbers logs.lines),
              )
              (
                subst (λ (l : List String). IsDistinct l) added
                    (insert-IsDistinct key tt written
                      (subst (λ (l : List String). IsDistinct l) (sym agree) distinct)),
                ground (arith, count, length-append (record_keys logs.lines) (key ∷ []), n),
                few_payloads,
                numbers,
                added,
              )
      ]
    ]

log_sample_live_payload-IsBounded :
    (message : String) (logs : LogState)
    → IsBounded logs
    → IsBounded (log_sample_live_payload message logs)
unfolding log_sample_live_payload record_keys payload_numbers up_to
log_sample_live_payload-IsBounded message logs h =
    let count = logs.live_payloads_logged in
    let (distinct, few, few_payloads, numbers, agree) = h in
    elim (Bool-cases (leb 5 count)) [
      | inl y ↦ rw y h
      | inr n ↦
          let one : count + 1 ≡ suc count = omega arith in
          let added : payload_numbers logs.lines ++ (suc count ∷ []) ≡ up_to (suc count) =
            ap (λ (l : List ℕ). l ++ (suc count ∷ [])) numbers in
          rw
            (
              n,
              one,
              record_keys-append logs.lines (sample_payload (suc count) message ∷ []),
              payload_numbers-append logs.lines (sample_payload (suc count) message ∷ []),
              append-nil (record_keys logs.lines),
            )
            (distinct, few, rw added (ground (arith, length-up_to (suc count), n)), added, agree)
    ]

module _ (fl : Float64) (formats : Formats) (local_day : Time → ℕ × ℕ) (config : AppConfig)
    (conv : Conversions fl.F) (store : GtfsStore fl.F) where
  open fl use {F}

  process_match-IsBounded :
      (o : Oracle) (live : LiveRecord F) (found : Option (TripMatch F)) (s : Session F)
      → IsBounded s.logs
      → IsBounded (process_match fl formats local_day config conv store o live found s).logs
  unfolding process_match
  process_match-IsBounded o live none s h =
      log_unmatched_key-IsBounded (unmatched_key live.line_id live.live_route_id) s.logs h
  process_match-IsBounded o live (some m) s h = h

  process_envelope-IsBounded :
      (message : Message F) (envelope : Option (RawEnvelope F)) (s : Session F)
      → IsBounded s.logs
      → IsBounded (process_envelope fl formats local_day config conv store message envelope s).logs
  unfolding process_envelope process_live_record
  process_envelope-IsBounded message none s h = h
  process_envelope-IsBounded message (some envelope) s h =
      let live = build_live_record fl formats local_day config conv store message envelope in
      let after = record s { logs = log_sample_live_payload message.raw s.logs } in
      process_match-IsBounded message.oracle live
        (live_match fl formats local_day config conv store live s.runtime) after
        (log_sample_live_payload-IsBounded message.raw s.logs h)

  -- However many messages come, at most ten lines about unmatched records have been written, no two
  -- for one key of line and route, and at most five lines about payloads, numbered from 1 on; the
  -- package's variables agree with the lines. All of that where it held before, as it does at the start.
  pub consume_messages-IsBounded :
      (messages : List (Message F)) (s : Session F)
      → IsBounded s.logs
      → IsBounded (consume_messages fl formats local_day config conv store messages s).logs
  unfolding consume_messages process_web_socket_message
  consume_messages-IsBounded [] s h = h
  consume_messages-IsBounded (message ∷ rest) s h =
      consume_messages-IsBounded rest
        (process_web_socket_message fl formats local_day config conv store message s)
        (process_envelope-IsBounded message (parse_raw_envelope message.tree) s h)
