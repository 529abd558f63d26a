-- ===== src/Commons/Kpi/Json/Unknown.antt =====
-- What backend/commons/src/sharedModel/json.go does on a type of node that it does not know.
use rio_t_preprocessors.Base.{
  Bool, true, false, String, string_eq, nat_eq, ◌==◌, if◌then◌else◌, Option, none, some, List, [],
  ◌∷◌, ◌||◌, ◌≡◌, refl,
}
use rio_t_preprocessors.Commons.Json.{Value, Members, as_text, as_flag}
use rio_t_preprocessors.Commons.Kpi.{KpiNode, KpiNodes, KpiDefinitionMpu}
use rio_t_preprocessors.Commons.Kpi.Json.{
  Numbers, Outcome, failed, panicked, read_node, unmarshal_kpi_node, definition_members, read_kind,
  unmarshal_definition, read_exists, read_reference, read_logical, as_float64,
}
use rio_t_preprocessors.Commons.Kpi.Json.RoundTrip.{NumberLaws}
use rio_t_preprocessors.Commons.Kpi.Json.Definitions.{IsDefinition, definition_back}

-- Whether `getKPINode` knows a type of node.
unfoldable pub is_known_kind : String → Bool
is_known_kind kind =
    kind == "string_eq_atom"
    || (kind == "string_neq_atom"
        || (kind == "string_exists_atom"
            || (kind == "string_not_exists_atom"
                || (kind == "boolean_eq_atom"
                    || (kind == "boolean_neq_atom"
                        || (kind == "boolean_exists_atom"
                            || (kind == "boolean_not_exists_atom"
                                || (kind == "numeric_eq_atom"
                                    || (kind == "numeric_neq_atom"
                                        || (kind == "numeric_gt_atom"
                                            || (kind == "numeric_geq_atom"
                                                || (kind == "numeric_lt_atom"
                                                    || (kind == "numeric_leq_atom"
                                                        || (kind == "numeric_exists_atom"
                                                            || (kind == "numeric_not_exists_atom"
                                                            || kind
                                                            == "logical_operation")))))))))))))))

abbrev any_test : {A : Type 0} → List (Bool × A) → Bool
any_test [] = false
any_test ((b, x) ∷ []) = b
any_test ((b, x) ∷ (c, y) ∷ rest) = b || any_test ((c, y) ∷ rest)

abbrev chain : {A : Type 0} → List (Bool × A) → A → A
chain [] z = z
chain ((b, x) ∷ rest) z = if b then x else chain rest z

module _ {N F : Type 0} (numbers : Numbers N F) (laws : NumberLaws numbers) (zero_float : F) where
  -- The tests of a chain, each of which fails.
  chain_lem :
      {A : Type 0} (tests : List (Bool × A)) (z : A) → any_test tests ≡ false → chain tests z ≡ z
  chain_lem [] z h = refl
  chain_lem ((true, x) ∷ []) z h = cc
  chain_lem ((true, x) ∷ (c, y) ∷ rest) z h = cc
  chain_lem ((false, x) ∷ []) z h = refl
  chain_lem ((false, x) ∷ (c, y) ∷ rest) z h = chain_lem ((c, y) ∷ rest) z h

  pub read_node-unknown :
      (kind : String) (fields : Members N) (children : Option (Outcome (KpiNodes F)))
      → is_known_kind kind ≡ false
      → read_node numbers zero_float kind fields children ≡ panicked
  unfolding read_node is_known_kind
  read_node-unknown kind fields children h =
      chain_lem
        ((kind == "string_eq_atom", read_reference numbers as_text "" KpiNode.string_eq_atom fields)
          ∷ (
            kind == "string_neq_atom",
            read_reference numbers as_text "" KpiNode.string_neq_atom fields,
          )
          ∷ (kind == "string_exists_atom", read_exists numbers KpiNode.string_exists_atom fields)
          ∷ (
            kind == "string_not_exists_atom",
            read_exists numbers KpiNode.string_not_exists_atom fields,
          )
          ∷ (
            kind == "boolean_eq_atom",
            read_reference numbers as_flag false KpiNode.boolean_eq_atom fields,
          )
          ∷ (
            kind == "boolean_neq_atom",
            read_reference numbers as_flag false KpiNode.boolean_neq_atom fields,
          )
          ∷ (kind == "boolean_exists_atom", read_exists numbers KpiNode.boolean_exists_atom fields)
          ∷ (
            kind == "boolean_not_exists_atom",
            read_exists numbers KpiNode.boolean_not_exists_atom fields,
          )
          ∷ (
            kind == "numeric_eq_atom",
            read_reference numbers (as_float64 numbers) zero_float KpiNode.numeric_eq_atom fields,
          )
          ∷ (
            kind == "numeric_neq_atom",
            read_reference numbers (as_float64 numbers) zero_float KpiNode.numeric_neq_atom fields,
          )
          ∷ (
            kind == "numeric_gt_atom",
            read_reference numbers (as_float64 numbers) zero_float KpiNode.numeric_gt_atom fields,
          )
          ∷ (
            kind == "numeric_geq_atom",
            read_reference numbers (as_float64 numbers) zero_float KpiNode.numeric_geq_atom fields,
          )
          ∷ (
            kind == "numeric_lt_atom",
            read_reference numbers (as_float64 numbers) zero_float KpiNode.numeric_lt_atom fields,
          )
          ∷ (
            kind == "numeric_leq_atom",
            read_reference numbers (as_float64 numbers) zero_float KpiNode.numeric_leq_atom fields,
          )
          ∷ (kind == "numeric_exists_atom", read_exists numbers KpiNode.numeric_exists_atom fields)
          ∷ (
            kind == "numeric_not_exists_atom",
            read_exists numbers KpiNode.numeric_not_exists_atom fields,
          )
          ∷ (kind == "logical_operation", read_logical numbers fields children)
          ∷ [])
        panicked h

  node_lem :
      (kind : String) (fields : Members N) (children : Option (Outcome (KpiNodes F)))
      → is_known_kind kind ≡ false
      → (found : Option String) → found ≡ some kind
      → elim found [ none ↦ failed | some k ↦ read_node numbers zero_float k fields children ]
        ≡ panicked
  node_lem kind fields children unknown found given =
      rw (given, read_node-unknown kind fields children unknown) refl

  unmarshal_kpi_node-unknown :
      (kind : String) (fields : Members N)
      → read_kind numbers fields ≡ some kind
      → is_known_kind kind ≡ false
      → unmarshal_kpi_node numbers zero_float (Value.object fields) ≡ panicked
  unfolding unmarshal_kpi_node
  unmarshal_kpi_node-unknown kind fields given unknown = node_lem kind fields _ unknown _ given

  -- In the JSON of a definition whose IDs are `uint32`s, a root node of a type that `getKPINode` does not
  -- know, or of none, ends decoding in a panic, not in an error.
  pub unmarshal_definition-unknown_kind :
      (d : KpiDefinitionMpu F) (fields : Members N) (kind : String)
      → IsDefinition d
      → read_kind numbers fields ≡ some kind
      → is_known_kind kind ≡ false
      → unmarshal_definition numbers zero_float
          (Value.object (definition_members numbers zero_float d (Value.object fields)))
        ≡ panicked
  unfolding IsDefinition
  unmarshal_definition-unknown_kind d fields kind h read unknown =
      rw
        (
          definition_back numbers laws zero_float d.id d.user_id d.sd_type_uid d.root_node
              d.sd_instance_mode d.selected_sd_instance_uids (Value.object fields) h.0 h.1,
          unmarshal_kpi_node-unknown kind fields read unknown,
        )
        refl
