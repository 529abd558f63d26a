-- ===== src/Commons/Kpi/Json.antt =====
-- backend/commons/src/sharedModel/json.go: the JSON of KPI nodes and definitions, as the tree that
-- its text stands for. The numbers of the text are of a type `N`; how they stand for Go's numbers is
-- a parameter, with the laws that a round trip relies on.
pub mod Definitions
mod Tests
pub mod RoundTrip
pub mod Unknown
pub mod Written
use rio_t_preprocessors.Base.{
  ℕ, Bool, true, false, ◌&&◌, ◌||◌, String, string_eq, nat_eq, ◌==◌, if◌then◌else◌, Option, none,
  some, List, [], ◌∷◌, zero, suc, ◌<◌, ◌^◌, ◌≡◌,
}
use rio_t_preprocessors.Commons.Json.{
  Value, Values, Members, field_for, is_field, read_field, as_text, as_flag, keep, as_texts,
  as_text_slice, text_values,
}
use rio_t_preprocessors.Commons.Kpi.{KpiNode, KpiNodes, get_type, KpiDefinitionMpu}

pub record Numbers (N F : Type 0) : Type 0 where
  -- A float that is infinite or not a number has no JSON.
  pub of_uint32 : ℕ → N
  pub of_float64 : F → Option N
  pub to_uint32 : N → Option ℕ
  pub to_float64 : N → Option F

-- What decoding ends with: a value, an error, or a panic.
pub data Outcome {ℓ} (A : Type ℓ) : Type ℓ where
  decoded : A → Outcome A
  failed : Outcome A
  panicked : Outcome A

abbrev pub outcome_map {ℓ κ} : {A : Type ℓ} {B : Type κ} → (A → B) → Outcome A → Outcome B
outcome_map f (decoded a) = decoded (f a)
outcome_map f failed = failed
outcome_map f panicked = panicked

abbrev pub or_failed {ℓ} : {A : Type ℓ} → Option A → Outcome A
or_failed none = failed
or_failed (some a) = decoded a

module _ {N F : Type 0} (numbers : Numbers N F) where
  abbrev pub id_value : ℕ → Value N
  id_value id = Value.number (numbers.of_uint32 id)

  -- The object of an atom, its keys in the order in which `json.Marshal` writes a map.
  abbrev pub exists_members : String → ℕ → String → Members N
  exists_members kind id specification = Members.member_and "kpiNodeType" (Value.text kind) (
      Members.member_and "sdParameterID" (id_value id) (
        Members.member_and "sdParameterSpecification" (Value.text specification)
          Members.no_members))

  abbrev exists_object : String → ℕ → String → Value N
  exists_object kind id specification = Value.object (exists_members kind id specification)

  abbrev pub reference_members : String → ℕ → String → Value N → Members N
  reference_members kind id specification reference =
      Members.member_and "kpiNodeType" (Value.text kind) (
        Members.member_and "referenceValue" reference (
          Members.member_and "sdParameterID" (id_value id) (
            Members.member_and "sdParameterSpecification" (Value.text specification)
              Members.no_members)))

  abbrev reference_object : String → ℕ → String → Value N → Value N
  reference_object kind id specification reference =
      Value.object (reference_members kind id specification reference)

  abbrev pub numeric_object : String → ℕ → String → F → Option (Value N)
  numeric_object kind id specification x = elim (numbers.of_float64 x) [
    | none ↦ none
    | some n ↦ some (reference_object kind id specification (Value.number n))
  ]

  abbrev child_value : Values N → Value N
  child_value Values.no_values = Value.null
  child_value (Values.value_and v vs) = Value.array (Values.value_and v vs)

  abbrev pub logical_members : String → Values N → Members N
  logical_members type children = Members.member_and "childNodes" (child_value children) (
      Members.member_and "kpiNodeType" (Value.text "logical_operation")
        (Members.member_and "type" (Value.text type) Members.no_members))

  abbrev pub logical_object : String → Option (Values N) → Option (Value N)
  logical_object type none = none
  logical_object type (some children) = some (Value.object (logical_members type children))

  abbrev pub both : Option (Value N) → Option (Values N) → Option (Values N)
  both (some v) (some vs) = some (Values.value_and v vs)
  both _ _ = none

  unfoldable mutual
    pub marshal_kpi_node : KpiNode F → Option (Value N)
    marshal_kpi_node (KpiNode.string_eq_atom i s r) =
        some (reference_object "string_eq_atom" i s (Value.text r))
    marshal_kpi_node (KpiNode.string_neq_atom i s r) =
        some (reference_object "string_neq_atom" i s (Value.text r))
    marshal_kpi_node (KpiNode.string_exists_atom i s) =
        some (exists_object "string_exists_atom" i s)
    marshal_kpi_node (KpiNode.string_not_exists_atom i s) =
        some (exists_object "string_not_exists_atom" i s)
    marshal_kpi_node (KpiNode.boolean_eq_atom i s r) =
        some (reference_object "boolean_eq_atom" i s (Value.flag r))
    marshal_kpi_node (KpiNode.boolean_neq_atom i s r) =
        some (reference_object "boolean_neq_atom" i s (Value.flag r))
    marshal_kpi_node (KpiNode.boolean_exists_atom i s) =
        some (exists_object "boolean_exists_atom" i s)
    marshal_kpi_node (KpiNode.boolean_not_exists_atom i s) =
        some (exists_object "boolean_not_exists_atom" i s)
    marshal_kpi_node (KpiNode.numeric_eq_atom i s r) = numeric_object "numeric_eq_atom" i s r
    marshal_kpi_node (KpiNode.numeric_neq_atom i s r) = numeric_object "numeric_neq_atom" i s r
    marshal_kpi_node (KpiNode.numeric_gt_atom i s r) = numeric_object "numeric_gt_atom" i s r
    marshal_kpi_node (KpiNode.numeric_geq_atom i s r) = numeric_object "numeric_geq_atom" i s r
    marshal_kpi_node (KpiNode.numeric_lt_atom i s r) = numeric_object "numeric_lt_atom" i s r
    marshal_kpi_node (KpiNode.numeric_leq_atom i s r) = numeric_object "numeric_leq_atom" i s r
    marshal_kpi_node (KpiNode.numeric_exists_atom i s) =
        some (exists_object "numeric_exists_atom" i s)
    marshal_kpi_node (KpiNode.numeric_not_exists_atom i s) =
        some (exists_object "numeric_not_exists_atom" i s)
    marshal_kpi_node (KpiNode.logical_operation type children) =
        logical_object type (marshal_kpi_nodes children)

    pub marshal_kpi_nodes : KpiNodes F → Option (Values N)
    marshal_kpi_nodes KpiNodes.no_nodes = some Values.no_values
    marshal_kpi_nodes (KpiNodes.node_and node rest) =
        both (marshal_kpi_node node) (marshal_kpi_nodes rest)

  abbrev pub as_uint32 : Value N → Option ℕ
  as_uint32 (Value.number n) = numbers.to_uint32 n
  as_uint32 _ = none

  abbrev pub as_float64 : Value N → Option F
  as_float64 (Value.number n) = numbers.to_float64 n
  as_float64 _ = none

  abbrev exists_fields : List String
  exists_fields = "sdParameterID" ∷ "sdParameterSpecification" ∷ []

  abbrev reference_fields : List String
  reference_fields = "sdParameterID" ∷ "sdParameterSpecification" ∷ "referenceValue" ∷ []

  abbrev logical_fields : List String
  logical_fields = "type" ∷ "childNodes" ∷ []

  -- `json.Unmarshal` into the struct of an atom without a reference value, and with one. A field
  -- that no member sets keeps the zero of its type.
  unfoldable pub read_exists : (ℕ → String → KpiNode F) → Members N → Outcome (KpiNode F)
  unfolding read_field field_for
  read_exists make fields =
      elim (read_field exists_fields "sdParameterID" keep as_uint32 0 fields) [
        | none ↦ failed
        | some id ↦
            or_failed
              (elim (read_field exists_fields "sdParameterSpecification" keep as_text "" fields) [
                | none ↦ none
                | some specification ↦ some (make id specification)
              ])
      ]

  module _ {A : Type 0} (decode : Value N → Option A) (zero_value : A) where
    unfoldable pub read_reference : (ℕ → String → A → KpiNode F) → Members N → Outcome (KpiNode F)
    unfolding read_field field_for
    read_reference make fields =
        elim (read_field reference_fields "sdParameterID" keep as_uint32 0 fields) [
          | none ↦ failed
          | some id ↦
              elim (read_field reference_fields "sdParameterSpecification" keep as_text "" fields) [
                | none ↦ failed
                | some specification ↦
                    or_failed
                      (elim (read_field reference_fields "referenceValue" keep decode zero_value
                        fields) [
                          | none ↦ none
                          | some reference ↦ some (make id specification reference)
                        ])
              ]
        ]

  -- `UnmarshalJSON` of a logical operation, its child nodes decoded already.
  unfoldable pub read_logical : Members N → Option (Outcome (KpiNodes F)) → Outcome (KpiNode F)
  unfolding read_field field_for
  read_logical fields none = failed
  read_logical fields (some children) =
      elim (read_field logical_fields "type" keep as_text "" fields) [
        | none ↦ failed
        | some type ↦ outcome_map (KpiNode.logical_operation type) children
      ]

  -- `getKPINode` and the `json.Unmarshal` into its result; an unknown type panics. `zero_float` is
  -- the number 0.
  unfoldable pub read_node :
      F → String → Members N → Option (Outcome (KpiNodes F)) → Outcome (KpiNode F)
  unfolding read_exists read_reference read_logical
  read_node zero_float kind fields children =
      if kind == "string_eq_atom"
      then read_reference as_text "" KpiNode.string_eq_atom fields
      else if kind == "string_neq_atom"
      then read_reference as_text "" KpiNode.string_neq_atom fields
      else if kind == "string_exists_atom"
      then read_exists KpiNode.string_exists_atom fields
      else if kind == "string_not_exists_atom"
      then read_exists KpiNode.string_not_exists_atom fields
      else if kind == "boolean_eq_atom"
      then read_reference as_flag false KpiNode.boolean_eq_atom fields
      else if kind == "boolean_neq_atom"
      then read_reference as_flag false KpiNode.boolean_neq_atom fields
      else if kind == "boolean_exists_atom"
      then read_exists KpiNode.boolean_exists_atom fields
      else if kind == "boolean_not_exists_atom"
      then read_exists KpiNode.boolean_not_exists_atom fields
      else if kind == "numeric_eq_atom"
      then read_reference as_float64 zero_float KpiNode.numeric_eq_atom fields
      else if kind == "numeric_neq_atom"
      then read_reference as_float64 zero_float KpiNode.numeric_neq_atom fields
      else if kind == "numeric_gt_atom"
      then read_reference as_float64 zero_float KpiNode.numeric_gt_atom fields
      else if kind == "numeric_geq_atom"
      then read_reference as_float64 zero_float KpiNode.numeric_geq_atom fields
      else if kind == "numeric_lt_atom"
      then read_reference as_float64 zero_float KpiNode.numeric_lt_atom fields
      else if kind == "numeric_leq_atom"
      then read_reference as_float64 zero_float KpiNode.numeric_leq_atom fields
      else if kind == "numeric_exists_atom"
      then read_exists KpiNode.numeric_exists_atom fields
      else if kind == "numeric_not_exists_atom"
      then read_exists KpiNode.numeric_not_exists_atom fields
      else if kind == "logical_operation"
      then read_logical fields children
      else panicked

  abbrev kind_fields : List String
  kind_fields = "kpiNodeType" ∷ []

  abbrev pub read_kind : Members N → Option String
  read_kind fields = read_field kind_fields "kpiNodeType" keep as_text "" fields

  abbrev pub first_error : Outcome (KpiNode F) → Outcome (KpiNodes F) → Outcome (KpiNodes F)
  first_error (decoded node) rest = outcome_map (KpiNodes.node_and node) rest
  first_error failed rest = failed
  first_error panicked rest = panicked

  -- `unmarshalKPINode` on a value, on the elements of an array in their order, and on the last
  -- member that gives the child nodes (`none` where one has another type).
  module _ (zero_float : F) where
    unfoldable mutual
      unfolding read_field

      pub unmarshal_kpi_node : Value N → Outcome (KpiNode F)
      unmarshal_kpi_node (Value.object fields) =
          let children = unmarshal_child_nodes (decoded KpiNodes.no_nodes) fields in
          elim (read_kind fields) [
            | none ↦ failed
            | some kind ↦ read_node zero_float kind fields children
          ]
      unmarshal_kpi_node Value.null = panicked
      unmarshal_kpi_node _ = failed

      pub unmarshal_kpi_nodes : Values N → Outcome (KpiNodes F)
      unmarshal_kpi_nodes Values.no_values = decoded KpiNodes.no_nodes
      unmarshal_kpi_nodes (Values.value_and v rest) =
          first_error (unmarshal_kpi_node v) (unmarshal_kpi_nodes rest)

      pub unmarshal_child_nodes : Outcome (KpiNodes F) → Members N → Option (Outcome (KpiNodes F))
      unmarshal_child_nodes found Members.no_members = some found
      unmarshal_child_nodes found (Members.member_and key v rest) =
          let own = unmarshal_children v in
          if is_field logical_fields "childNodes" key
          then elim own [ none ↦ none | some children ↦ unmarshal_child_nodes children rest ]
          else unmarshal_child_nodes found rest

      pub unmarshal_children : Value N → Option (Outcome (KpiNodes F))
      unmarshal_children (Value.array vs) = some (unmarshal_kpi_nodes vs)
      unmarshal_children Value.null = some (decoded KpiNodes.no_nodes)
      unmarshal_children _ = none

    -- `omitempty` leaves out a nil pointer and a zero.
    abbrev omit_nil : Option ℕ → Members N → Members N
    omit_nil none rest = rest
    omit_nil (some id) rest = Members.member_and "id" (id_value id) rest

    abbrev omit_zero : ℕ → Members N → Members N
    omit_zero zero rest = rest
    omit_zero (suc k) rest = Members.member_and "userID" (id_value (suc k)) rest

    abbrev text_slice : List String → Value N
    text_slice [] = Value.null
    text_slice (s ∷ rest) = Value.array (text_values (s ∷ rest))

    abbrev pub definition_members : KpiDefinitionMpu F → Value N → Members N
    definition_members d root =
        let rest = Members.member_and "sdTypeSpecification" (Value.text d.sd_type_uid) (
          Members.member_and "sdInstanceMode" (Value.text d.sd_instance_mode) (
            Members.member_and "selectedSDInstanceUIDs" (text_slice d.selected_sd_instance_uids)
              (Members.member_and "rootNode" root Members.no_members))) in
        omit_nil d.id (omit_zero d.user_id rest)

    unfoldable pub marshal_definition : KpiDefinitionMpu F → Option (Value N)
    marshal_definition d = elim (marshal_kpi_node d.root_node) [
      | none ↦ none
      | some root ↦ some (Value.object (definition_members d root))
    ]

    abbrev definition_fields : List String
    definition_fields =
        "rootNode" ∷ "id" ∷ "userID" ∷ "sdTypeSpecification" ∷ "sdInstanceMode"
        ∷ "selectedSDInstanceUIDs" ∷ []

    -- The value of the last member that belongs to the root node.
    unfoldable pub root_member : Option (Value N) → Members N → Option (Value N)
    unfolding field_for
    root_member found Members.no_members = found
    root_member found (Members.member_and key v rest) =
        root_member (if is_field definition_fields "rootNode" key then some v else found) rest

    abbrev some_uint32 : Value N → Option (Option ℕ)
    some_uint32 v = elim (as_uint32 v) [ none ↦ none | some id ↦ some (some id) ]

    -- `UnmarshalJSON` of a definition: the error of a field, then that of the root node.
    unfoldable pub unmarshal_definition : Value N → Outcome (KpiDefinitionMpu F)
    unfolding read_field field_for root_member
    unmarshal_definition (Value.object fields) =
        elim (read_field definition_fields "id" (λ v. none) some_uint32 none fields) [
          | none ↦ failed
          | some id ↦ elim (read_field definition_fields "userID" keep as_uint32 0 fields) [
            | none ↦ failed
            | some user_id ↦
                elim (read_field definition_fields "sdTypeSpecification" keep as_text "" fields) [
                  | none ↦ failed
                  | some sd_type_uid ↦
                      elim (read_field definition_fields "sdInstanceMode" keep as_text "" fields) [
                        | none ↦ failed
                        | some mode ↦
                            elim (read_field definition_fields "selectedSDInstanceUIDs" (λ v. [])
                              as_text_slice [] fields) [
                                | none ↦ failed
                                | some uids ↦ elim (root_member none fields) [
                                  | none ↦ failed
                                  | some root ↦
                                      outcome_map
                                        (λ node. record {
                                          id = id;
                                          user_id = user_id;
                                          sd_type_uid = sd_type_uid;
                                          root_node = node;
                                          sd_instance_mode = mode;
                                          selected_sd_instance_uids = uids;
                                        })
                                        (unmarshal_kpi_node root)
                                ]
                              ]
                      ]
                ]
          ]
        ]
    unmarshal_definition Value.null = panicked
    unmarshal_definition _ = failed
