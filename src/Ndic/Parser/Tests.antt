-- ===== src/Ndic/Parser/Tests.antt =====
-- backend/ndic-preprocessor/src/parser.go on a document with one element.
use rio_t_preprocessors.Base.{◌+◌, string_eq, none, some, ◌≡◌, refl, length, true}
use rio_t_preprocessors.Base.Int.{pos}
use rio_t_preprocessors.Base.Maps.{lookup, insert}
use rio_t_preprocessors.Base.Text.{trim_space}
use rio_t_preprocessors.Base.Strconv.{atoi, cut_prefix}
use rio_t_preprocessors.Ndic.Xml.{split_element, field_texts}
use rio_t_preprocessors.Ndic.Elaborated.{
  done, ◌>>=◌, traffic_level_value, parse_elaborated_data, is_primary_location_element,
  is_secondary_location_element, basic_data_type, float_field, float_of, traffic_speed,
}
use rio_t_preprocessors.Ndic.Parser.{parse_ndic_xml}
use rio_t_preprocessors.Ndic.Parser.Samples.{library, document}
use rio_t_preprocessors.Ndic.Parser.Expected.{source_snapshot}
use rio_t_preprocessors.Ndic.Parser.Items.{document_items, parse_ndic_xml-source_snapshot}
use rio_t_preprocessors.Ndic.Parser.Sound.{SoundFetch, parse_ndic_xml-SoundFetch}

speed_read :
    (parse_ndic_xml library (pos 7) true document >>= (λ fetch.
      done (elim (lookup "TS1" fetch.snapshots) [
        | none ↦ none
        | some s ↦ s.traffic_speed_any_vehicle
      ])))
    ≡ done (some 50)
unfolding parse_ndic_xml ◌>>=◌ lookup split_element parse_elaborated_data
    is_primary_location_element is_secondary_location_element basic_data_type trim_space float_field
    float_of field_texts traffic_speed insert
speed_read = refl

levels : (traffic_level_value " level3" ≡ pos 3) × (traffic_level_value "heavy" ≡ pos 0)
unfolding traffic_level_value cut_prefix trim_space atoi
levels = (refl, refl)

parse_ndic_xml-source_snapshot_example :
    (parse_ndic_xml library (pos 7) true document
      >>= (λ fetch. done (lookup "TS1" fetch.snapshots)))
    ≡ (document_items library (length document + 1) true document
        >>= (λ items. done (source_snapshot "TS1" items)))
parse_ndic_xml-source_snapshot_example =
    parse_ndic_xml-source_snapshot library (pos 7) true document "TS1"

parse_ndic_xml-SoundFetch_example :
    SoundFetch library document (parse_ndic_xml library (pos 7) true document)
parse_ndic_xml-SoundFetch_example = parse_ndic_xml-SoundFetch library (pos 7) true document
