-- ===== src/Ndic/Parser.antt =====
-- parseNDICXML, extractPublicationTime and decodeElaboratedPayload in
-- backend/ndic-preprocessor/src/parser.go, on the tokens of the document.
pub mod Expected
pub mod Merged
pub mod Items
pub mod Sound
pub mod Samples
mod Tests
use rio_t_preprocessors.Base.{
  ℕ, zero, suc, Bool, true, false, ◌&&◌, ◌||◌, not, String, string_eq, ◌==◌, if◌then◌else◌, Option,
  none, some, List, [], ◌∷◌, ◌++◌, length, ◌+◌,
}
use rio_t_preprocessors.Base.Int.{ℤ}
use rio_t_preprocessors.Base.Maps.{Dict, lookup, insert}
use rio_t_preprocessors.Base.Text.{trim_space}
use rio_t_preprocessors.Base.Time.{Time, zero_time, is_zero, after}
use rio_t_preprocessors.Ndic.Model.{RawEntry, Snapshot, ParsedFetch}
use rio_t_preprocessors.Ndic.Xml.{Token, start_element, split_element, direct_text}
use rio_t_preprocessors.Ndic.Elaborated.{
  ParseError, document_error, payload_error, Attempt, done, fails, out_of_fuel, ◌>>=◌, Library,
  Location, Elaborated, or_zero, traffic_level_value, parse_elaborated_data,
}

-- What one element adds: its source, its kind of data, its location and its entry.
pub record Item (F : Type 0) : Type 0 where
  pub source_id : String
  pub data_type : String
  pub location : Location
  pub entry : RawEntry F

unfoldable pub first_code : String → String → String
first_code old new = if old == "" then new else old

-- `if !new.IsZero() && (old.IsZero() || new.After(old)) { old = new }`
unfoldable pub latest_time : Time → Time → Time
latest_time old new = if not (is_zero new) && (is_zero old || after new old) then new else old

unfoldable pub replaced {ℓ} : {A : Type ℓ} → Option A → Option A → Option A
replaced old none = old
replaced old (some new) = some new

abbrev pub level_of : String → Option ℤ
level_of text = if text == "" then none else some (traffic_level_value text)

abbrev pub new_snapshot : {F : Type 0} → String → Snapshot F
new_snapshot source_id = record {
  source_identification = source_id;
  event_time = zero_time;
  primary_location_code = "";
  secondary_location_code = "";
  tmc_metadata = none;
  traffic_level_any_vehicle = none;
  traffic_speed_any_vehicle = none;
  travel_time_any_vehicle = none;
  raw_entries = [];
}

module _ {F : Type 0} where
  -- The switch on the kind of data.
  unfoldable pub take_reading : String → RawEntry F → Snapshot F → Snapshot F
  unfolding replaced
  take_reading data_type entry snapshot =
      if data_type == "TrafficStatus"
      then record snapshot {
        traffic_level_any_vehicle =
            replaced snapshot.traffic_level_any_vehicle (level_of entry.traffic_level_value);
      }
      else if data_type == "TrafficSpeed"
      then record snapshot {
        traffic_speed_any_vehicle = replaced snapshot.traffic_speed_any_vehicle entry.speed;
      }
      else if data_type == "TravelTimeData"
      then record snapshot {
        travel_time_any_vehicle = replaced snapshot.travel_time_any_vehicle entry.duration;
      }
      else snapshot

  unfoldable pub merge_item : Item F → Snapshot F → Snapshot F
  unfolding first_code latest_time take_reading
  merge_item item snapshot = take_reading item.data_type item.entry (record snapshot {
    primary_location_code =
        first_code snapshot.primary_location_code item.location.primary_location_code;
    secondary_location_code =
        first_code snapshot.secondary_location_code item.location.secondary_location_code;
    event_time = latest_time snapshot.event_time item.entry.event_time;
    raw_entries = snapshot.raw_entries ++ item.entry ∷ [];
  })

  -- `snapshot, exists := result.Snapshots[sourceID]`, with a new one where there is none.
  unfoldable pub snapshot_for : String → Option (Snapshot F) → Snapshot F
  snapshot_for source_id none = new_snapshot source_id
  snapshot_for source_id (some snapshot) = snapshot

  unfoldable pub add_item : Item F → Dict String (Snapshot F) → Dict String (Snapshot F)
  unfolding merge_item snapshot_for
  add_item item snapshots =
      insert item.source_id
        (merge_item item (snapshot_for item.source_id (lookup item.source_id snapshots))) snapshots

  -- `if sourceID == "" || entry == nil { continue }`
  unfoldable pub item_from : String → String → Location → Option (RawEntry F) → Option (Item F)
  item_from source_id data_type location none = none
  item_from source_id data_type location (some entry) =
      if source_id == ""
      then none
      else (some (record {
        source_id = source_id;
        data_type = data_type;
        location = location;
        entry = entry;
      }))

  unfoldable pub item_of : Elaborated F → Option (Item F)
  unfolding item_from
  item_of state = item_from state.source_id state.data_type state.location state.entry

  unfoldable pub add_found : Option (Item F) → Dict String (Snapshot F) → Dict String (Snapshot F)
  unfolding add_item
  add_found none snapshots = snapshots
  add_found (some item) snapshots = add_item item snapshots

  unfoldable pub add_elaborated : Elaborated F → Dict String (Snapshot F) → Dict String (Snapshot F)
  unfolding item_of add_found
  add_elaborated state = add_found (item_of state)

-- `decodeElaboratedPayload`: the tokens of the element, and those after it.
unfoldable pub decode_elaborated_payload :
    Option (List Token × List Token) → Attempt (List Token × List Token)
decode_elaborated_payload none = fails payload_error
decode_elaborated_payload (some pair) = done pair

-- `if publicationTime.IsZero() { publicationTime = time.Now().UTC() }`
unfoldable pub publication_time_or : Time → Time → Time
publication_time_or now time = if is_zero time then now else time

module _ {F : Type 0} (library : Library F) where
  -- `fuel` serves the loop over the document and, with what is left of it, those over the payloads;
  -- a payload is a document of its own, which is complete.
  unfoldable pub parse_snapshots :
      ℕ → Bool → List Token → Dict String (Snapshot F) → Attempt (Dict String (Snapshot F))
  unfolding ◌>>=◌ decode_elaborated_payload add_elaborated
  parse_snapshots zero complete tokens snapshots = out_of_fuel
  parse_snapshots (suc fuel) complete [] snapshots =
      if complete then done snapshots else fails document_error
  parse_snapshots (suc fuel) complete (start_element local attributes ∷ rest) snapshots =
      let skipped = parse_snapshots fuel complete rest snapshots in
      let read = decode_elaborated_payload (split_element 0 rest) >>= (λ payload.
        parse_elaborated_data library fuel true payload.0
        >>= (λ state. parse_snapshots fuel complete payload.1 (add_elaborated state snapshots))) in
      if local == "elaboratedData" then read else skipped
  parse_snapshots (suc fuel) complete (token ∷ rest) snapshots =
      parse_snapshots fuel complete rest snapshots

  unfoldable pub read_time : Option (List Token × List Token) → Time
  unfolding or_zero
  read_time none = zero_time
  read_time (some (inner, rest)) =
      or_zero (library.parse_rfc3339 (trim_space (direct_text 0 inner)))

  -- The first `publicationTime`; the zero time where it is missing, unclosed or unreadable.
  unfoldable pub extract_publication_time : List Token → Time
  unfolding read_time
  extract_publication_time [] = zero_time
  extract_publication_time (start_element local attributes ∷ rest) =
      let later = extract_publication_time rest in
      if local == "publicationTime" then read_time (split_element 0 rest) else later
  extract_publication_time (token ∷ rest) = extract_publication_time rest

  unfoldable pub parse_ndic_xml : Time → Bool → List Token → Attempt (ParsedFetch F)
  unfolding ◌>>=◌ parse_snapshots extract_publication_time publication_time_or
  parse_ndic_xml now complete tokens =
      parse_snapshots (length tokens + 1) complete tokens [] >>= (λ snapshots. done (record {
        publication_time = publication_time_or now (extract_publication_time tokens);
        snapshots = snapshots;
      }))
