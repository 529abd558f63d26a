-- ===== src/Ndic/Elaborated/Checked.antt =====
-- The loop of parseElaboratedData in backend/ndic-preprocessor/src/parser.go: the fuel it needs and
-- which entries it keeps.
use rio_t_preprocessors.Base.{
  ℕ, zero, suc, Bool, true, false, ◌||◌, ◌<◌, ◌≤◌, String, string_eq, ◌==◌, bool_eq, Option, none,
  some, List, [], ◌∷◌, ◌≡◌, refl, subst, sym, arith, length, inl, inr, Bool-cases, if◌then◌else◌,
  Option-cases,
}
use rio_t_preprocessors.Ndic.Model.{RawEntry}
use rio_t_preprocessors.Ndic.Xml.{
  Token, start_element, end_element, char_data, other_token, split_element, split_element-shorter,
  string_field,
}
use rio_t_preprocessors.Ndic.Xml.Part.{IsWithin, IsWithin-tail, split_element-IsWithin}
use rio_t_preprocessors.Ndic.Elaborated.{
  Attempt, Read, done, fails, out_of_fuel, ◌>>=◌, Library, Elaborated, float_field, traffic_status,
  traffic_speed, travel_time, decode_basic_data, parse_optional_rfc3339, keep_entry, kept_for,
  read_source, read_specific_location, read_basic_data, read_start, read_end, read_elaborated,
  is_primary_location_element, is_secondary_location_element, basic_data_type,
  parse_elaborated_data, nothing_read, entry_at,
}

-- The reading of an element ended.
abbrev pub Ends {ℓ} : {A : Type ℓ} → Attempt A → Type 0
Ends (done a) = Unit
Ends (fails e) = Unit
Ends out_of_fuel = ⊥

abbrev pub is_some {ℓ} : {A : Type ℓ} → Option A → Bool
is_some none = false
is_some (some a) = true

-- An entry for any vehicle that has the fields of its type, which is `type`, and no others: a speed
-- with its qualifier, a duration, or the text of a level, which is empty where the element has none.
abbrev pub IsAnyVehicle : {F : Type 0} → String → RawEntry F → Type 0
IsAnyVehicle type e =
    (e.vehicle_type ≡ "anyVehicle")
    × (e.type ≡ type)
    × (is_some e.speed ≡ (type == "TrafficSpeed"))
    × (is_some e.duration ≡ (type == "TravelTimeData"))
    × ((type == "TrafficStatus" || e.traffic_level_value == "") ≡ true)
    × (e.qualifier_type ≡ (if type == "TrafficSpeed" then e.vehicle_type else ""))
    × ((type == "TrafficStatus" || type == "TrafficSpeed" || type == "TravelTimeData") ≡ true)

-- Where the elements of each type have the type of the vehicle, and the paths of the other fields.
abbrev vehicle_path : String → List String
vehicle_path type =
    if type == "TrafficStatus"
    then "vehicleType" ∷ "ndicFcdExtension" ∷ "trafficStatusExtension" ∷ []
    else if type == "TrafficSpeed"
    then "vehicleType" ∷ "forVehiclesWithCharacteristicsOf" ∷ []
    else "vehicleType" ∷ []

abbrev level_path : List String
level_path =
    "trafficLevelValue" ∷ "trafficLevel" ∷ "ndicFcdExtension" ∷ "trafficStatusExtension" ∷ []

if-both {ℓ κ} :
    {A : Type ℓ} (P : A → Type κ) (b : Bool) {x y : A} → P x → P y → P (if b then x else y)
if-both P true h k = h
if-both P false h k = k

module _ {F : Type 0} (library : Library F) (document : List Token) where
  -- The fields of an entry of a type are those of an element's content.
  abbrev pub IsDescribed : String → List Token → RawEntry F → Type 0
  IsDescribed type inner e =
      (e.event_time
        ≡ parse_optional_rfc3339 library (string_field ("measurementOrCalculationTime" ∷ []) inner))
      × (e.vehicle_type ≡ string_field (vehicle_path type) inner)
      × (e.traffic_level_value
          ≡ (if type == "TrafficStatus" then string_field level_path inner else ""))
      × (e.speed ≡ (
          if type == "TrafficSpeed"
          then float_field library ("speed" ∷ "averageVehicleSpeed" ∷ []) inner
          else none))
      × (e.duration ≡ (
          if type == "TravelTimeData"
          then float_field library ("duration" ∷ "travelTime" ∷ []) inner
          else none))

  -- The entry is that of an element of the document that has the type.
  abbrev pub IsReadFrom : String → RawEntry F → Type 0
  IsReadFrom type e =
      (name : String) × (attributes : List (String × String)) × (after : List Token) × (inner : List
        Token)
      × (rest : List Token) × IsWithin (start_element name attributes ∷ after) document
      × (basic_data_type attributes ≡ type)
      × (split_element 0 after ≡ some (inner, rest))
      × IsDescribed type inner e

  abbrev ReadsFrom : String → List Token → Type 0
  ReadsFrom type inner = (e : RawEntry F) → IsDescribed type inner e → IsReadFrom type e

  abbrev pub Keeps : String → Option (RawEntry F) → Type 0
  Keeps type none = Unit
  Keeps type (some e) = IsAnyVehicle type e × IsReadFrom type e

  -- What decode_basic_data says to keep.
  abbrev Decodes : String → Attempt (Option (RawEntry F) × Bool) → Type 0
  Decodes type (done (entry, true)) = Keeps type entry
  Decodes type (done (entry, false)) = Unit
  Decodes type (fails e) = Unit
  Decodes type out_of_fuel = ⊥

  -- The step did not run out, leaves at most `n` tokens, and keeps only what it should.
  abbrev Advances : ℕ → Read F → Type 0
  Advances n (done (state, rest)) =
      (length rest ≤ n) × IsWithin rest document × Keeps state.data_type state.entry
  Advances n (fails e) = Unit
  Advances n out_of_fuel = ⊥

  abbrev pub ResultKeeps : Attempt (Elaborated F) → Type 0
  ResultKeeps (done state) = Keeps state.data_type state.entry
  ResultKeeps (fails e) = Unit
  ResultKeeps out_of_fuel = ⊥

  gated :
      (type : String) (e : RawEntry F)
      → e.type ≡ type
      → is_some e.speed ≡ (type == "TrafficSpeed")
      → is_some e.duration ≡ (type == "TravelTimeData")
      → (type == "TrafficStatus" || e.traffic_level_value == "") ≡ true
      → e.qualifier_type ≡ (if type == "TrafficSpeed" then e.vehicle_type else "")
      → (type == "TrafficStatus" || type == "TrafficSpeed" || type == "TravelTimeData") ≡ true
      → IsReadFrom type e
      → Decodes type (done (some e, e.vehicle_type == "anyVehicle"))
  gated type e same speed duration level qualifier known read =
      elim (Bool-cases (e.vehicle_type == "anyVehicle")) [
        | inl y ↦
            let any : e.vehicle_type ≡ "anyVehicle" =
              (string_eq.beq_iff e.vehicle_type "anyVehicle").0 y in
            rw y ((any, same, speed, duration, level, qualifier, known), read)
        | inr n ↦ rw n tt
      ]

  -- A struct with a number is kept only where the number reads.
  gated_number :
      (type : String) (number : Option F) (entry : F → RawEntry F)
      → ((value : F)
          → number ≡ some value
          → Decodes type (done (some (entry value), (entry value).vehicle_type == "anyVehicle")))
      → Decodes type (kept_for number entry)
  unfolding kept_for
  gated_number type none entry h = tt
  gated_number type (some value) entry h = h value refl

  keep_entry-Advances :
      (type : String) (state : Elaborated F) (decoded : Attempt (Option (RawEntry F) × Bool))
      (n : ℕ) (rest : List Token)
      → Keeps state.data_type state.entry
      → Decodes type decoded
      → length rest ≤ n
      → IsWithin rest document
      → Advances n (decoded >>= (λ d. done (keep_entry type state d, rest)))
  unfolding ◌>>=◌ keep_entry
  keep_entry-Advances type state (done (entry, true)) n rest h d l inside = (l, inside, d)
  keep_entry-Advances type state (done (entry, false)) n rest h d l inside = (l, inside, h)
  keep_entry-Advances type state (fails e) n rest h d l inside = tt
  keep_entry-Advances type state out_of_fuel n rest h d l inside = absurd d

  decode_basic_data-Decodes :
      (type : String) (inner : List Token)
      → ReadsFrom type inner
      → Decodes type (decode_basic_data library type inner)
  unfolding decode_basic_data traffic_status traffic_speed travel_time entry_at
  decode_basic_data-Decodes type inner reads =
      let Goal =
        (λ (t : String). ReadsFrom t inner → Decodes t (decode_basic_data library t inner)) in
      let at = (λ (t : String) (y : (type == t) ≡ true). sym ((string_eq.beq_iff type t).0 y)) in
      elim (Bool-cases (type == "TrafficStatus")) [
        | inl y ↦
            subst Goal (at "TrafficStatus" y)
              (λ read.
                gated "TrafficStatus" (traffic_status library inner) refl refl refl refl refl refl
                  (read (traffic_status library inner) (refl, refl, refl, refl, refl)))
              reads
        | inr n ↦ elim (Bool-cases (type == "TrafficSpeed")) [
          | inl y ↦
              subst Goal (at "TrafficSpeed" y)
                (λ read.
                  gated_number "TrafficSpeed"
                    (float_field library ("speed" ∷ "averageVehicleSpeed" ∷ []) inner)
                    (traffic_speed library inner)
                    (λ v found.
                      gated "TrafficSpeed" (traffic_speed library inner v) refl refl refl refl refl
                        refl
                        (read (traffic_speed library inner v) (refl, refl, refl, sym found, refl))))
                reads
          | inr m ↦ elim (Bool-cases (type == "TravelTimeData")) [
            | inl y ↦
                subst Goal (at "TravelTimeData" y)
                  (λ read.
                    gated_number "TravelTimeData"
                      (float_field library ("duration" ∷ "travelTime" ∷ []) inner)
                      (travel_time library inner)
                      (λ v found.
                        gated "TravelTimeData" (travel_time library inner v) refl refl refl refl
                          refl refl
                          (read (travel_time library inner v) (refl, refl, refl, refl, sym found))))
                  reads
            | inr k ↦ rw (decode_basic_data, n, m, k) tt
          ]
        ]
      ]

  -- What the steps that decode an element have in common.
  opened-Advances :
      (read : Option (List Token × List Token) → Read F) (tokens : List Token)
      → IsWithin tokens document
      → Advances (length tokens) (read none)
      → ((inner rest : List Token)
          → length rest ≤ length tokens
          → IsWithin rest document
          → split_element 0 tokens ≡ some (inner, rest)
          → Advances (length tokens) (read (some (inner, rest))))
      → Advances (length tokens) (read (split_element 0 tokens))
  opened-Advances read tokens inside closed opened = elim (Option-cases (split_element 0 tokens)) [
    | inl h ↦ rw h closed
    | inr (pair, h) ↦ rw h (
        opened pair.0 pair.1 (omega (arith, split_element-shorter 0 tokens pair.0 pair.1 h))
          (split_element-IsWithin 0 tokens pair.0 pair.1 document h inside).1 h)
  ]

  read_start-Advances :
      (local : String) (attributes : List (String × String)) (tokens : List Token)
      (state : Elaborated F)
      → IsWithin (start_element local attributes ∷ tokens) document
      → Keeps state.data_type state.entry
      → Advances (length tokens) (read_start library local attributes tokens state)
  unfolding read_start read_source read_specific_location read_basic_data
  read_start-Advances local attributes tokens state whole h =
      let P = Advances (length tokens) in
      let inside = IsWithin-tail (start_element local attributes) tokens document whole in
      if-both P (local == "source")
        (opened-Advances (read_source state) tokens inside tt (λ inner rest l w e. (l, w, h)))
        (if-both P (local == "specificLocation")
          (opened-Advances (read_specific_location state) tokens inside tt
            (λ inner rest l w e. (l, w, h)))
          (if-both P (is_primary_location_element local) (omega arith, inside, h)
            (if-both P (is_secondary_location_element local) (omega arith, inside, h)
              (if-both P (basic_data_type attributes == "") (omega arith, inside, h)
                (opened-Advances (read_basic_data library (basic_data_type attributes) state) tokens
                  inside tt
                  (λ inner rest l w e.
                    keep_entry-Advances (basic_data_type attributes) state
                      (decode_basic_data library (basic_data_type attributes) inner) (length tokens)
                      rest h
                      (decode_basic_data-Decodes (basic_data_type attributes) inner
                        (λ entry described.
                          (local, attributes, tokens, inner, rest, whole, refl, e, described)))
                      l w))))))

  after_step :
      (fuel n : ℕ) (complete : Bool) (step : Read F)
      → Advances n step
      → n < fuel
      → ((rest : List Token) (state : Elaborated F)
          → length rest < fuel
          → IsWithin rest document
          → Keeps state.data_type state.entry
          → ResultKeeps (read_elaborated library fuel complete rest state))
      → ResultKeeps (step >>= (λ next. read_elaborated library fuel complete next.1 next.0))
  unfolding ◌>>=◌
  after_step fuel n complete (done (state, rest)) a l go =
      go rest state (omega (arith, a.0, l)) a.1 a.2
  after_step fuel n complete (fails e) a l go = tt
  after_step fuel n complete out_of_fuel a l go = absurd a

  read_elaborated-ResultKeeps :
      (fuel : ℕ) (complete : Bool) (tokens : List Token) (state : Elaborated F)
      → length tokens < fuel
      → IsWithin tokens document
      → Keeps state.data_type state.entry
      → ResultKeeps (read_elaborated library fuel complete tokens state)
  unfolding read_elaborated read_end
  read_elaborated-ResultKeeps zero complete tokens state l w h = absurd (omega (arith, l))
  read_elaborated-ResultKeeps (suc fuel) true [] state l w h = h
  read_elaborated-ResultKeeps (suc fuel) false [] state l w h = tt
  read_elaborated-ResultKeeps (suc fuel) complete (start_element local attributes ∷ rest) state l w
        h =
      after_step fuel (length rest) complete (read_start library local attributes rest state)
        (read_start-Advances local attributes rest state w h) (omega (arith, l))
        (λ r s. read_elaborated-ResultKeeps fuel complete r s)
  read_elaborated-ResultKeeps (suc fuel) complete (end_element local ∷ rest) state l w h =
      read_elaborated-ResultKeeps fuel complete rest (read_end local state) (omega (arith, l))
        (IsWithin-tail (end_element local) rest document w) h
  read_elaborated-ResultKeeps (suc fuel) complete (char_data text ∷ rest) state l w h =
      read_elaborated-ResultKeeps fuel complete rest state (omega (arith, l))
        (IsWithin-tail (char_data text) rest document w) h
  read_elaborated-ResultKeeps (suc fuel) complete (other_token ∷ rest) state l w h =
      read_elaborated-ResultKeeps fuel complete rest state (omega (arith, l))
        (IsWithin-tail (other_token) rest document w) h

  -- On a payload of fewer tokens than the fuel the reading ends, and the entry it keeps is one of
  -- the three types, for any vehicle, with the fields of an element of its type and no others.
  pub parse_elaborated_data-ResultKeeps :
      (fuel : ℕ) (complete : Bool) (payload : List Token)
      → length payload < fuel
      → IsWithin payload document
      → ResultKeeps (parse_elaborated_data library fuel complete payload)
  unfolding parse_elaborated_data
  parse_elaborated_data-ResultKeeps fuel complete payload l inside =
      read_elaborated-ResultKeeps fuel complete payload nothing_read l inside tt
