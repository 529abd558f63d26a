-- ===== src/Ndic/Elaborated.antt =====
-- parseElaboratedData, decodeBasicData and their helpers in
-- backend/ndic-preprocessor/src/parser.go: the reading of one `elaboratedData` element.
pub mod Checked
use rio_t_preprocessors.Base.{
  ℕ, zero, suc, Bool, true, false, ◌&&◌, ◌||◌, not, String, string_eq, ◌==◌, if◌then◌else◌, Option,
  none, some, List, [], ◌∷◌,
}
use rio_t_preprocessors.Base.Int.{ℤ, pos}
use rio_t_preprocessors.Base.Text.{trim_space}
use rio_t_preprocessors.Base.Strconv.{atoi, cut_prefix}
use rio_t_preprocessors.Base.Time.{Time, zero_time}
use rio_t_preprocessors.Ndic.Model.{RawEntry}
use rio_t_preprocessors.Ndic.Xml.{
  Token, start_element, end_element, split_element, string_field, field_texts, direct_text,
}

-- Which call failed.
pub data ParseError : Type 0 where
  document_error payload_error elaborated_error entry_error : ParseError

-- A loop that reads tokens runs on fuel.
pub data Attempt {ℓ} (A : Type ℓ) : Type ℓ where
  done : A → Attempt A
  fails : ParseError → Attempt A
  out_of_fuel : Attempt A

infixl 20 ◌>>=◌
unfoldable pub ◌>>=◌ {ℓ κ} : {A : Type ℓ} {B : Type κ} → Attempt A → (A → Attempt B) → Attempt B
done a >>= f = f a
fails e >>= f = fails e
out_of_fuel >>= f = out_of_fuel

-- `time.Parse(time.RFC3339, _)` in UTC, `strconv.ParseFloat(_, 64)` and the float 0.
pub record Library (F : Type 0) : Type 0 where
  pub parse_rfc3339 : String → Option Time
  pub parse_float : String → Option F
  pub zero_float : F

pub record Location : Type 0 where
  pub primary_location_code : String
  pub secondary_location_code : String

-- What parseElaboratedData keeps between two tokens.
pub record Elaborated (F : Type 0) : Type 0 where
  pub source_id : String
  pub data_type : String
  pub entry : Option (RawEntry F)
  pub location : Location
  pub in_primary_location_context : Bool
  pub in_secondary_location_context : Bool

abbrev pub no_location : Location
no_location = record { primary_location_code = ""; secondary_location_code = "" }

abbrev pub nothing_read : {F : Type 0} → Elaborated F
nothing_read = record {
  source_id = "";
  data_type = "";
  entry = none;
  location = no_location;
  in_primary_location_context = false;
  in_secondary_location_context = false;
}

unfoldable pub is_primary_location_element : String → Bool
is_primary_location_element local =
    local == "alertCMethod2PrimaryPointLocation"
    || local == "alertCMethod4PrimaryPointLocation"
    || local == "alertCMethod4PrimaryPointIntermediateLocation"

unfoldable pub is_secondary_location_element : String → Bool
is_secondary_location_element local =
    local == "alertCMethod2SecondaryPointLocation" || local == "alertCMethod4SecondaryPointLocation"

unfoldable pub basic_data_type : List (String × String) → String
basic_data_type [] = ""
basic_data_type ((name, value) ∷ attributes) =
    let rest = basic_data_type attributes in if name == "type" then trim_space value else rest

unfoldable pub traffic_level_value : String → ℤ
traffic_level_value value = elim (cut_prefix "level" (trim_space value)) [
  | none ↦ pos 0
  | some digits ↦ elim (atoi digits) [ none ↦ pos 0 | some parsed ↦ parsed ]
]

unfoldable pub or_zero : Option Time → Time
or_zero none = zero_time
or_zero (some time) = time

-- The code of a location is kept from the first element that gives one.
unfoldable pub take_location : String → Bool → Bool → Location → Location
take_location code in_primary in_secondary location =
    if in_primary && location.primary_location_code == ""
    then record location { primary_location_code = trim_space code }
    else if in_secondary && location.secondary_location_code == ""
    then record location { secondary_location_code = trim_space code }
    else location

-- The entry of a struct with a number, which the decoding of the number may refuse.
unfoldable pub kept_for :
    {F : Type 0} → Option F → (F → RawEntry F) → Attempt (Option (RawEntry F) × Bool)
kept_for none entry = fails entry_error
kept_for (some value) entry = done (some (entry value), (entry value).vehicle_type == "anyVehicle")

-- What is known after a token, and the tokens after it.
abbrev pub Read : Type 0 → Type 0
Read F = Attempt (Elaborated F × List Token)

module _ {F : Type 0} where
  -- `if keep { dataType = currentType; entry = parsedEntry }`
  unfoldable pub keep_entry : String → Elaborated F → Option (RawEntry F) × Bool → Elaborated F
  keep_entry current_type state (entry, keep) =
      if keep then record state { data_type = current_type; entry = entry } else state

  unfoldable pub read_source : Elaborated F → Option (List Token × List Token) → Read F
  read_source state none = fails elaborated_error
  read_source state (some (inner, rest)) = done (
    record state { source_id = trim_space (string_field ("sourceIdentification" ∷ []) inner) },
    rest,
  )

  unfoldable pub read_specific_location : Elaborated F → Option (List Token × List Token) → Read F
  unfolding take_location
  read_specific_location state none = fails elaborated_error
  read_specific_location state (some (inner, rest)) = done (
    record state {
      location =
          take_location (direct_text 0 inner) state.in_primary_location_context
            state.in_secondary_location_context state.location;
    },
    rest,
  )

  -- The end of a location element.
  unfoldable pub read_end : String → Elaborated F → Elaborated F
  read_end local state = record state {
    in_primary_location_context =
        state.in_primary_location_context && not (is_primary_location_element local);
    in_secondary_location_context =
        state.in_secondary_location_context && not (is_secondary_location_element local);
  }

module _ {F : Type 0} (library : Library F) where
  unfoldable pub parse_optional_rfc3339 : String → Time
  parse_optional_rfc3339 value =
      let trimmed = trim_space value in
      if trimmed == "" then zero_time else or_zero (library.parse_rfc3339 trimmed)

  -- A `float64` field: every element at its path must be empty or a number; the last one counts.
  unfoldable pub float_of : F → List String → Option F
  float_of found [] = some found
  float_of found (text ∷ texts) =
      elim (if text == "" then some library.zero_float else library.parse_float (trim_space text)) [
        | none ↦ none
        | some value ↦ float_of value texts
      ]

  unfoldable pub float_field : List String → List Token → Option F
  float_field path inner = float_of library.zero_float (field_texts path [] "" inner)

  -- An entry with what every kind of data has.
  unfoldable pub entry_at : String → List Token → String → RawEntry F
  unfolding string_field
  entry_at type inner vehicle = record {
    type = type;
    event_time = parse_optional_rfc3339 (string_field ("measurementOrCalculationTime" ∷ []) inner);
    vehicle_type = vehicle;
    qualifier_type = "";
    traffic_level_value = "";
    speed = none;
    duration = none;
  }

  unfoldable pub traffic_status : List Token → RawEntry F
  unfolding entry_at
  traffic_status inner =
      record (entry_at "TrafficStatus" inner
        (string_field ("vehicleType" ∷ "ndicFcdExtension" ∷ "trafficStatusExtension" ∷ []) inner)) {
          traffic_level_value =
              string_field
                ("trafficLevelValue" ∷ "trafficLevel" ∷ "ndicFcdExtension"
                  ∷ "trafficStatusExtension" ∷ [])
                inner;
        }

  unfoldable pub traffic_speed : List Token → F → RawEntry F
  unfolding entry_at
  traffic_speed inner speed =
      let vehicle = string_field ("vehicleType" ∷ "forVehiclesWithCharacteristicsOf" ∷ []) inner in
      record (entry_at "TrafficSpeed" inner vehicle) {
        qualifier_type = vehicle;
        speed = some speed;
      }

  unfoldable pub travel_time : List Token → F → RawEntry F
  unfolding entry_at
  travel_time inner duration =
      record (entry_at "TravelTimeData" inner (string_field ("vehicleType" ∷ []) inner)) {
        duration = some duration;
      }

  -- The entry that an element's content makes, and whether it is kept; nothing for other types.
  unfoldable pub decode_basic_data : String → List Token → Attempt (Option (RawEntry F) × Bool)
  unfolding kept_for
  decode_basic_data data_type inner =
      if data_type == "TrafficStatus"
      then (done (some (traffic_status inner), (traffic_status inner).vehicle_type == "anyVehicle"))
      else if data_type == "TrafficSpeed"
      then (kept_for (float_field ("speed" ∷ "averageVehicleSpeed" ∷ []) inner)
          (traffic_speed inner))
      else if data_type == "TravelTimeData"
      then kept_for (float_field ("duration" ∷ "travelTime" ∷ []) inner) (travel_time inner)
      else done (none, false)

  unfoldable pub read_basic_data : String → Elaborated F → Option (List Token × List Token) → Read F
  unfolding ◌>>=◌ decode_basic_data keep_entry
  read_basic_data current_type state none = fails entry_error
  read_basic_data current_type state (some (inner, rest)) =
      decode_basic_data current_type inner
      >>= (λ decoded. done (keep_entry current_type state decoded, rest))

  -- The switch on a start element; `rest` are the tokens after it. An element without an end leaves
  -- the decoder with a syntax error, which the next `Token` returns.
  unfoldable pub read_start : String → List (String × String) → List Token → Elaborated F → Read F
  unfolding read_source read_specific_location read_basic_data
  read_start local attributes rest state =
      if local == "source"
      then read_source state (split_element 0 rest)
      else if local == "specificLocation"
      then read_specific_location state (split_element 0 rest)
      else if is_primary_location_element local
      then done (record state { in_primary_location_context = true }, rest)
      else if is_secondary_location_element local
      then done (record state { in_secondary_location_context = true }, rest)
      else if basic_data_type attributes == ""
      then done (state, rest)
      else read_basic_data (basic_data_type attributes) state (split_element 0 rest)

  -- The loop; at the end of the tokens `complete` tells `io.EOF` from a syntax error.
  unfoldable pub read_elaborated : ℕ → Bool → List Token → Elaborated F → Attempt (Elaborated F)
  unfolding ◌>>=◌ read_start read_end
  read_elaborated zero complete tokens state = out_of_fuel
  read_elaborated (suc fuel) complete [] state =
      if complete then done state else fails elaborated_error
  read_elaborated (suc fuel) complete (start_element local attributes ∷ rest) state =
      read_start local attributes rest state
      >>= (λ next. read_elaborated fuel complete next.1 next.0)
  read_elaborated (suc fuel) complete (end_element local ∷ rest) state =
      read_elaborated fuel complete rest (read_end local state)
  read_elaborated (suc fuel) complete (token ∷ rest) state =
      read_elaborated fuel complete rest state

  unfoldable pub parse_elaborated_data : ℕ → Bool → List Token → Attempt (Elaborated F)
  unfolding read_elaborated
  parse_elaborated_data fuel complete payload = read_elaborated fuel complete payload nothing_read
