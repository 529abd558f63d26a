-- ===== src/Commons/Kpi/Json/Written.antt =====
-- The MarshalJSON of KPIDefinition in backend/commons/src/sharedModel/json.go, and what a reader of
-- KPIDefinitionMPU makes of it.
use rio_t_preprocessors.Base.{ℕ, String, Option, none, some, List, [], ◌∷◌}
use rio_t_preprocessors.Commons.Json.{Value, Values, Members}
use rio_t_preprocessors.Commons.Kpi.{KpiDefinition}
use rio_t_preprocessors.Commons.Kpi.Json.{Numbers, id_value, marshal_kpi_node}

module _ {N F : Type 0} (numbers : Numbers N F) where
  unfoldable pub id_values : List ℕ → Values N
  id_values [] = Values.no_values
  id_values (id ∷ rest) = Values.value_and (id_value numbers id) (id_values rest)

  -- A nil slice is `null`; an empty one is taken for nil.
  unfoldable pub id_slice : List ℕ → Value N
  id_slice [] = Value.null
  id_slice (id ∷ rest) = Value.array (id_values (id ∷ rest))

  -- `omitempty` leaves out a nil pointer.
  unfoldable pub omit_missing : String → Option ℕ → Members N → Members N
  omit_missing key none rest = rest
  omit_missing key (some id) rest = Members.member_and key (id_value numbers id) rest

  unfoldable pub kpi_definition_members : KpiDefinition F → Value N → Members N
  kpi_definition_members d root =
      let last = Members.member_and "sdTypeID" (id_value numbers d.sd_type_id) (
        Members.member_and "sdTypeSpecification" (Value.text d.sd_type_specification) (
          Members.member_and "userIdentifier" (Value.text d.user_identifier) (
            Members.member_and "sdInstanceMode" (Value.text d.sd_instance_mode) (
              Members.member_and "selectedSDInstanceUIDs" (id_slice d.selected_sd_instance_ids)
                (Members.member_and "rootNode" root Members.no_members))))) in
      omit_missing "id" d.id
        (Members.member_and "label" (Value.text d.label) (omit_missing "userID" d.user_id last))

  unfoldable pub marshal_kpi_definition : KpiDefinition F → Option (Value N)
  marshal_kpi_definition d = elim (marshal_kpi_node numbers d.root_node) [
    | none ↦ none
    | some root ↦ some (Value.object (kpi_definition_members d root))
  ]
