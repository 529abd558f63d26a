-- ===== src/Commons/Kpi/Json/Tests.antt =====
-- A definition with a small tree of conditions, and its JSON.
use rio_t_preprocessors.Base.{ℕ, some, [], refl, ◌≡◌, arith}
use rio_t_preprocessors.Commons.Json.{
  Value, Values, Members, read_field, field_for, equal_fold, fold_codes,
}
use rio_t_preprocessors.Commons.Kpi.{KpiNode, KpiNodes, KpiDefinitionMpu}
use rio_t_preprocessors.Commons.Kpi.Json.{
  Numbers, decoded, panicked, logical_members, reference_members, exists_members,
  definition_members, marshal_definition, marshal_kpi_node, unmarshal_definition,
}
use rio_t_preprocessors.Commons.Kpi.Json.RoundTrip.{NumberLaws, IsNode}
use rio_t_preprocessors.Commons.Kpi.Json.Definitions.{
  IsDefinition, unmarshal_definition-marshal_definition,
}
use rio_t_preprocessors.Commons.Kpi.Json.Unknown.{is_known_kind, unmarshal_definition-unknown_kind}

abbrev plain_numbers : Numbers ℕ ℕ
plain_numbers = record {
  of_uint32 = λ n. n;
  of_float64 = λ x. some x;
  to_uint32 = λ n. some n;
  to_float64 = λ n. some n;
}

plain_laws : NumberLaws plain_numbers
plain_laws = record { uint32_back = λ n h. refl; float64_back = λ x n e. ground (arith, e) }

abbrev condition : KpiDefinitionMpu ℕ
condition = record {
  id = some 7;
  user_id = 0;
  sd_type_uid = "MHD_TRIP";
  root_node = KpiNode.logical_operation "and" (
      KpiNodes.node_and (KpiNode.numeric_gt_atom 3 "delay" 10)
        (KpiNodes.node_and (KpiNode.string_exists_atom 4 "label") KpiNodes.no_nodes));
  sd_instance_mode = "all";
  selected_sd_instance_uids = [];
}

abbrev condition_root : Value ℕ
condition_root = Value.object (
    logical_members plain_numbers "and" (
      Values.value_and
        (Value.object
          (reference_members plain_numbers "numeric_gt_atom" 3 "delay" (Value.number 10)))
        (Values.value_and
          (Value.object (exists_members plain_numbers "string_exists_atom" 4 "label"))
          Values.no_values)))

condition-IsDefinition : IsDefinition condition
unfolding IsDefinition IsNode
condition-IsDefinition = omega arith

unmarshal_definition-marshal_definition_example :
    unmarshal_definition plain_numbers 0
      (Value.object (definition_members plain_numbers 0 condition condition_root))
    ≡ decoded condition
unfolding marshal_definition marshal_kpi_node
unmarshal_definition-marshal_definition_example =
    unmarshal_definition-marshal_definition plain_numbers plain_laws 0 condition
      (Value.object (definition_members plain_numbers 0 condition condition_root))
      condition-IsDefinition refl

abbrev unknown_fields : Members ℕ
unknown_fields = Members.member_and "kpiNodeType" (Value.text "xor") Members.no_members

unmarshal_definition-unknown_kind_example :
    unmarshal_definition plain_numbers 0
      (Value.object (definition_members plain_numbers 0 condition (Value.object unknown_fields)))
    ≡ panicked
unfolding read_field field_for equal_fold fold_codes is_known_kind
unmarshal_definition-unknown_kind_example =
    unmarshal_definition-unknown_kind plain_numbers plain_laws 0 condition unknown_fields "xor"
      condition-IsDefinition refl refl
