-- ===== src/Ndic/Parser/Samples.antt =====
-- A document with one element, for the examples.
use rio_t_preprocessors.Base.{ℕ, ◌*◌, String, some, List, [], ◌∷◌, ◌++◌}
use rio_t_preprocessors.Base.Int.{pos}
use rio_t_preprocessors.Base.Time.{second}
use rio_t_preprocessors.Ndic.Xml.{Token, start_element, end_element, char_data}
use rio_t_preprocessors.Ndic.Elaborated.{Library}

abbrev pub library : Library ℕ
library = record {
  parse_rfc3339 = λ text. some (pos (300 * second));
  parse_float = λ text. some 50;
  zero_float = 0;
}

abbrev leaf : String → String → List Token
leaf name text = start_element name [] ∷ char_data text ∷ end_element name ∷ []

abbrev payload : List Token
payload =
    (start_element "source" [] ∷ leaf "sourceIdentification" " TS1 ")
    ++ (end_element "source" ∷ start_element "alertCMethod2PrimaryPointLocation" [] ∷ [])
    ++ leaf "specificLocation" "100"
    ++ (end_element "alertCMethod2PrimaryPointLocation"
        ∷ start_element "basicData" (("type", "TrafficSpeed") ∷ [])
        ∷ start_element "forVehiclesWithCharacteristicsOf" []
        ∷ [])
    ++ leaf "vehicleType" "anyVehicle"
    ++ (end_element "forVehiclesWithCharacteristicsOf"
        ∷ start_element "averageVehicleSpeed" []
        ∷ [])
    ++ leaf "speed" "50"
    ++ (end_element "averageVehicleSpeed" ∷ end_element "basicData" ∷ [])

abbrev pub document : List Token
document =
    (start_element "payloadPublication" [] ∷ start_element "elaboratedData" [] ∷ [])
    ++ payload
    ++ (end_element "elaboratedData" ∷ end_element "payloadPublication" ∷ [])
