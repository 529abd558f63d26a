-- ===== src/Commons/Kpi/Json/RoundTrip.antt =====
-- What comes back of a node and of a definition that were written as JSON by
-- backend/commons/src/sharedModel/json.go.
use rio_t_preprocessors.Base.{
  ℕ, Bool, false, String, string_eq, nat_eq, Option, none, some, ◌<◌, ◌^◌, ◌≡◌, refl, Option-cases,
  inl, inr, arith, ap,
}
use rio_t_preprocessors.Commons.Json.{
  Value, Values, field_for, equal_fold, fold_codes, read_field, as_text, as_flag,
}
use rio_t_preprocessors.Commons.Kpi.{KpiNode, KpiNodes}
use rio_t_preprocessors.Commons.Kpi.Json.{
  Numbers, decoded, marshal_kpi_node, marshal_kpi_nodes, read_exists, read_reference, read_logical,
  read_node, unmarshal_kpi_node, unmarshal_kpi_nodes, numeric_object, as_float64, reference_members,
  exists_members, logical_object, both, logical_members, outcome_map,
}

-- A `uint32` and a finite float come back from the numbers that stand for them.
pub record NumberLaws {N F : Type 0} (numbers : Numbers N F) : Type 0 where
  pub uint32_back : (n : ℕ) → n < 2 ^ 32 → numbers.to_uint32 (numbers.of_uint32 n) ≡ some n
  pub float64_back : (x : F) (n : N) → numbers.of_float64 x ≡ some n → numbers.to_float64 n ≡ some x

abbrev pub IsUint32 : ℕ → Type 0
IsUint32 n = n < 2 ^ 32

-- The IDs of a tree are `uint32`s.
unfoldable mutual
  pub IsNode : {F : Type 0} → KpiNode F → Type 0
  IsNode (KpiNode.string_eq_atom i _ _) = IsUint32 i
  IsNode (KpiNode.string_neq_atom i _ _) = IsUint32 i
  IsNode (KpiNode.string_exists_atom i _) = IsUint32 i
  IsNode (KpiNode.string_not_exists_atom i _) = IsUint32 i
  IsNode (KpiNode.boolean_eq_atom i _ _) = IsUint32 i
  IsNode (KpiNode.boolean_neq_atom i _ _) = IsUint32 i
  IsNode (KpiNode.boolean_exists_atom i _) = IsUint32 i
  IsNode (KpiNode.boolean_not_exists_atom i _) = IsUint32 i
  IsNode (KpiNode.numeric_eq_atom i _ _) = IsUint32 i
  IsNode (KpiNode.numeric_neq_atom i _ _) = IsUint32 i
  IsNode (KpiNode.numeric_gt_atom i _ _) = IsUint32 i
  IsNode (KpiNode.numeric_geq_atom i _ _) = IsUint32 i
  IsNode (KpiNode.numeric_lt_atom i _ _) = IsUint32 i
  IsNode (KpiNode.numeric_leq_atom i _ _) = IsUint32 i
  IsNode (KpiNode.numeric_exists_atom i _) = IsUint32 i
  IsNode (KpiNode.numeric_not_exists_atom i _) = IsUint32 i
  IsNode (KpiNode.logical_operation _ children) = AreNodes children

  pub AreNodes : {F : Type 0} → KpiNodes F → Type 0
  AreNodes KpiNodes.no_nodes = Unit
  AreNodes (KpiNodes.node_and node rest) = IsNode node × AreNodes rest

pub set_lem {ℓ} : {A : Type ℓ} (a b : A) → some a ≡ some b → b ≡ a
set_lem a b e = cc

module _ {N F : Type 0} (numbers : Numbers N F) (laws : NumberLaws numbers) where
  exists_lem :
      (make : ℕ → String → KpiNode F) (kind : String) (i : ℕ) (s : String)
      → IsUint32 i
      → read_exists numbers make (exists_members numbers kind i s) ≡ decoded (make i s)
  unfolding read_exists read_field field_for equal_fold fold_codes
  exists_lem make kind i s h = rw (read_exists, laws.uint32_back i h) refl

  -- A reference value is never `null`, so it is set.
  reference_text_lem :
      (make : ℕ → String → String → KpiNode F) (kind : String) (i : ℕ) (s r : String)
      → IsUint32 i
      → read_reference numbers as_text "" make (reference_members numbers kind i s (Value.text r))
        ≡ decoded (make i s r)
  unfolding read_reference read_field field_for equal_fold fold_codes
  reference_text_lem make kind i s r h = rw (read_reference, laws.uint32_back i h) refl

  reference_flag_lem :
      (make : ℕ → String → Bool → KpiNode F) (kind : String) (i : ℕ) (s : String) (r : Bool)
      → IsUint32 i
      → read_reference numbers as_flag false make
          (reference_members numbers kind i s (Value.flag r))
        ≡ decoded (make i s r)
  unfolding read_reference read_field field_for equal_fold fold_codes
  reference_flag_lem make kind i s r h = rw (read_reference, laws.uint32_back i h) refl

  reference_number_lem :
      (zero_float : F) (make : ℕ → String → F → KpiNode F) (kind : String) (i : ℕ) (s : String)
      (x : F) (n : N)
      → IsUint32 i
      → numbers.of_float64 x ≡ some n
      → read_reference numbers
          (as_float64 numbers)
          zero_float
          make
          (reference_members numbers kind i s (Value.number n))
        ≡ decoded (make i s x)
  unfolding read_reference read_field field_for equal_fold fold_codes
  reference_number_lem zero_float make kind i s x n h e =
      rw (read_reference, laws.uint32_back i h, laws.float64_back x n e) refl

  module _ (zero_float : F) where
    -- The object of a numeric atom, from its marshalling: the float has a number.
    numeric_lem :
        (make : ℕ → String → F → KpiNode F) (kind : String) (i : ℕ) (s : String) (x : F)
        (v : Value N)
        → IsUint32 i
        → numeric_object numbers kind i s x ≡ some v
        → (n : N) × (v ≡ Value.object (reference_members numbers kind i s (Value.number n)))
          × read_reference numbers
              (as_float64 numbers)
              zero_float
              make
              (reference_members numbers kind i s (Value.number n))
            ≡ decoded (make i s x)
    numeric_lem make kind i s x v h e = elim (Option-cases (numbers.of_float64 x)) [
      | inl none_given ↦ ground (arith, none_given)
      | inr (n, given) ↦
          (n, ground (arith, given), reference_number_lem zero_float make kind i s x n h given)
    ]

    logical_lem :
        (type : String) (children : Option (Values N)) (v : Value N)
        → logical_object numbers type children ≡ some v
        → (vs : Values N) × (children ≡ some vs)
          × (v ≡ Value.object (logical_members numbers type vs))
    logical_lem type none v e = ground arith
    logical_lem type (some vs) v e = (vs, refl, set_lem _ v e)

    both_lem :
        (first : Option (Value N)) (rest : Option (Values N)) (all : Values N)
        → both numbers first rest ≡ some all
        → (v : Value N) × (vs : Values N) × (first ≡ some v)
          × (rest ≡ some vs)
          × (all ≡ Values.value_and v vs)
    both_lem none rest all e = ground arith
    both_lem (some v) none all e = ground arith
    both_lem (some v) (some vs) all e = (v, vs, refl, refl, cc)

    logical_back :
        (type : String) (vs : Values N) (nodes : KpiNodes F)
        → unmarshal_kpi_nodes numbers zero_float vs ≡ decoded nodes
        → unmarshal_kpi_node numbers zero_float (Value.object (logical_members numbers type vs))
          ≡ decoded (KpiNode.logical_operation type nodes)
    unfolding unmarshal_kpi_node read_node read_field field_for equal_fold fold_codes read_logical
    logical_back type Values.no_values nodes e = ap (outcome_map (KpiNode.logical_operation type)) e
    logical_back type (Values.value_and v vs) nodes e =
        ap (outcome_map (KpiNode.logical_operation type)) e

    mutual
      unfolding marshal_kpi_node unmarshal_kpi_node read_node IsNode read_field field_for equal_fold
          fold_codes read_logical

      pub unmarshal_kpi_node-marshal_kpi_node :
          (node : KpiNode F) (v : Value N)
          → IsNode node
          → marshal_kpi_node numbers node ≡ some v
          → unmarshal_kpi_node numbers zero_float v ≡ decoded node
      unmarshal_kpi_node-marshal_kpi_node (KpiNode.string_eq_atom i s r) v h e =
          rw (set_lem _ v e) (reference_text_lem KpiNode.string_eq_atom "string_eq_atom" i s r h)
      unmarshal_kpi_node-marshal_kpi_node (KpiNode.string_neq_atom i s r) v h e =
          rw (set_lem _ v e) (reference_text_lem KpiNode.string_neq_atom "string_neq_atom" i s r h)
      unmarshal_kpi_node-marshal_kpi_node (KpiNode.string_exists_atom i s) v h e =
          rw (set_lem _ v e) (exists_lem KpiNode.string_exists_atom "string_exists_atom" i s h)
      unmarshal_kpi_node-marshal_kpi_node (KpiNode.string_not_exists_atom i s) v h e =
          rw (set_lem _ v e)
            (exists_lem KpiNode.string_not_exists_atom "string_not_exists_atom" i s h)
      unmarshal_kpi_node-marshal_kpi_node (KpiNode.boolean_eq_atom i s r) v h e =
          rw (set_lem _ v e) (reference_flag_lem KpiNode.boolean_eq_atom "boolean_eq_atom" i s r h)
      unmarshal_kpi_node-marshal_kpi_node (KpiNode.boolean_neq_atom i s r) v h e =
          rw (set_lem _ v e)
            (reference_flag_lem KpiNode.boolean_neq_atom "boolean_neq_atom" i s r h)
      unmarshal_kpi_node-marshal_kpi_node (KpiNode.boolean_exists_atom i s) v h e =
          rw (set_lem _ v e) (exists_lem KpiNode.boolean_exists_atom "boolean_exists_atom" i s h)
      unmarshal_kpi_node-marshal_kpi_node (KpiNode.boolean_not_exists_atom i s) v h e =
          rw (set_lem _ v e)
            (exists_lem KpiNode.boolean_not_exists_atom "boolean_not_exists_atom" i s h)
      unmarshal_kpi_node-marshal_kpi_node (KpiNode.numeric_eq_atom i s x) v h e =
          let (n, same, back) = numeric_lem KpiNode.numeric_eq_atom "numeric_eq_atom" i s x v h e in
          rw same back
      unmarshal_kpi_node-marshal_kpi_node (KpiNode.numeric_neq_atom i s x) v h e =
          let (n, same, back) =
            numeric_lem KpiNode.numeric_neq_atom "numeric_neq_atom" i s x v h e in
          rw same back
      unmarshal_kpi_node-marshal_kpi_node (KpiNode.numeric_gt_atom i s x) v h e =
          let (n, same, back) = numeric_lem KpiNode.numeric_gt_atom "numeric_gt_atom" i s x v h e in
          rw same back
      unmarshal_kpi_node-marshal_kpi_node (KpiNode.numeric_geq_atom i s x) v h e =
          let (n, same, back) =
            numeric_lem KpiNode.numeric_geq_atom "numeric_geq_atom" i s x v h e in
          rw same back
      unmarshal_kpi_node-marshal_kpi_node (KpiNode.numeric_lt_atom i s x) v h e =
          let (n, same, back) = numeric_lem KpiNode.numeric_lt_atom "numeric_lt_atom" i s x v h e in
          rw same back
      unmarshal_kpi_node-marshal_kpi_node (KpiNode.numeric_leq_atom i s x) v h e =
          let (n, same, back) =
            numeric_lem KpiNode.numeric_leq_atom "numeric_leq_atom" i s x v h e in
          rw same back
      unmarshal_kpi_node-marshal_kpi_node (KpiNode.numeric_exists_atom i s) v h e =
          rw (set_lem _ v e) (exists_lem KpiNode.numeric_exists_atom "numeric_exists_atom" i s h)
      unmarshal_kpi_node-marshal_kpi_node (KpiNode.numeric_not_exists_atom i s) v h e =
          rw (set_lem _ v e)
            (exists_lem KpiNode.numeric_not_exists_atom "numeric_not_exists_atom" i s h)
      unmarshal_kpi_node-marshal_kpi_node (KpiNode.logical_operation type children) v h e =
          let (vs, given, same) = logical_lem type (marshal_kpi_nodes numbers children) v e in
          rw same (
            logical_back type vs children
              (unmarshal_kpi_nodes-marshal_kpi_nodes children vs h given))

      unmarshal_kpi_nodes-marshal_kpi_nodes :
          (nodes : KpiNodes F) (vs : Values N)
          → AreNodes nodes
          → marshal_kpi_nodes numbers nodes ≡ some vs
          → unmarshal_kpi_nodes numbers zero_float vs ≡ decoded nodes
      unmarshal_kpi_nodes-marshal_kpi_nodes KpiNodes.no_nodes vs h e =
          rw (set_lem Values.no_values vs e) refl
      unmarshal_kpi_nodes-marshal_kpi_nodes (KpiNodes.node_and node rest) vs h e =
          let (v, more, first, others, same) =
            both_lem (marshal_kpi_node numbers node) (marshal_kpi_nodes numbers rest) vs e in
          rw
            (
              same,
              unmarshal_kpi_nodes,
              unmarshal_kpi_node-marshal_kpi_node node v h.0 first,
              unmarshal_kpi_nodes-marshal_kpi_nodes rest more h.1 others,
            )
            refl
