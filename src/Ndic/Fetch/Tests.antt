-- ===== src/Ndic/Fetch/Tests.antt =====
-- A poll of backend/ndic-preprocessor/src/fetch.go with the document of the parser's examples.
use rio_t_preprocessors.Base.{ℕ, ◌+◌, true, string_eq, none, some, [], ◌∷◌, ◌≡◌, refl, elem, length}
use rio_t_preprocessors.Base.Int.{pos, pos_part}
use rio_t_preprocessors.Base.Maps.{lookup}
use rio_t_preprocessors.Base.Text.{trim_space, contains_text}
use rio_t_preprocessors.Base.Environment.{UrlLibrary, complete_url, trim_right_slashes}
use rio_t_preprocessors.Base.Time.{second}
use rio_t_preprocessors.Commons.Sets.{new_set}
use rio_t_preprocessors.Ndic.Model.{default_config}
use rio_t_preprocessors.Ndic.Xml.{split_element, field_texts, direct_text}
use rio_t_preprocessors.Ndic.Elaborated.{
  ◌>>=◌, done, parse_elaborated_data, is_primary_location_element, is_secondary_location_element,
  basic_data_type, float_field, float_of, traffic_speed, parse_optional_rfc3339,
}
use rio_t_preprocessors.Ndic.Parser.{Item, decode_elaborated_payload, item_of}
use rio_t_preprocessors.Ndic.Parser.Samples.{library, document}
use rio_t_preprocessors.Ndic.Parser.Items.{document_items}
use rio_t_preprocessors.Ndic.Runtime.{Runtime, Oracle}
use rio_t_preprocessors.Ndic.Runtime.Activity.{is_active}
use rio_t_preprocessors.Ndic.Fetch.{
  Decoders, response, unwrap_xml, normalize_ndic_url, with_api_path, fetch_and_process_ndic_data,
}
use rio_t_preprocessors.Ndic.Fetch.Poll.{item_uids, fetch_and_process_ndic_data-activity}

abbrev decoders : Decoders ℕ
decoders = record {
  decode_json = λ text. none;
  decode_xml = λ text. record { tokens = document; complete = true };
}

abbrev item : Item ℕ
item = record {
  source_id = "TS1";
  data_type = "TrafficSpeed";
  location = record { primary_location_code = "100"; secondary_location_code = "" };
  entry = record {
    type = "TrafficSpeed";
    event_time = pos 0;
    vehicle_type = "anyVehicle";
    qualifier_type = "anyVehicle";
    traffic_level_value = "";
    speed = some 50;
    duration = none;
  };
}

abbrev idle : Runtime
idle = record { sd_instances = new_set; instance_states = []; preprocessor_started_at = pos 0 }

abbrev oracle : Oracle
oracle = record { now = λ uid. pos second; draw = λ uid. 0; closing_draw = λ uid. 0 }

-- An address is its own path here.
abbrev urls : UrlLibrary
urls = record {
  parse_url = λ text. some (record { scheme = "http"; host = "h"; path = text; others = "" });
  url_string = λ url. url.path;
}

normalized : (normalize_ndic_url urls " / " ≡ "/api/latest") × (normalize_ndic_url urls "/x" ≡ "/x")
unfolding normalize_ndic_url trim_space with_api_path complete_url trim_right_slashes
normalized = (refl, refl)

raw_xml : unwrap_xml library decoders "text/xml" "<x/>" ≡ some "<x/>"
unfolding unwrap_xml contains_text
raw_xml = refl

one_item : document_items library (length document + 1) true document ≡ done (item ∷ [])
unfolding document_items ◌>>=◌ split_element parse_elaborated_data is_primary_location_element
    is_secondary_location_element basic_data_type trim_space float_field float_of field_texts
    traffic_speed parse_optional_rfc3339 decode_elaborated_payload item_of direct_text
one_item = refl

fetch_and_process_ndic_data-activity_example :
    is_active (
      lookup "NDIC_TRAFFIC_TS1"
        (fetch_and_process_ndic_data pos_part
          (λ text. none)
          default_config
          oracle
          none
          library
          decoders
          (pos second)
          (response 200 "text/xml" (some "<x/>"))
          idle).0.0.instance_states)
    ≡ elem "NDIC_TRAFFIC_TS1" (item_uids (item ∷ []))
fetch_and_process_ndic_data-activity_example =
    fetch_and_process_ndic_data-activity pos_part (λ text. none) default_config oracle none library
      decoders (pos second) "text/xml" "<x/>" "<x/>" (item ∷ []) idle "NDIC_TRAFFIC_TS1" raw_xml
      one_item
