-- ===== src/Commons/Kpi.antt =====
-- backend/commons/src/sharedModel/kpiDefinitionModel.go: KPI definitions and their trees of
-- conditions. `F` stands for `float64`, a `uint32` is a number below 2 ^ 32.
pub mod Json
use rio_t_preprocessors.Base.{ℕ, Bool, String, List, Option, ◌<◌, ◌^◌}

-- A node, with the fields of its struct. A slice of nodes without any is the nil slice.
mutual
  pub data KpiNode (F : Type 0) : Type 0 where
    string_eq_atom : ℕ → String → String → KpiNode F
    string_neq_atom : ℕ → String → String → KpiNode F
    string_exists_atom : ℕ → String → KpiNode F
    string_not_exists_atom : ℕ → String → KpiNode F
    boolean_eq_atom : ℕ → String → Bool → KpiNode F
    boolean_neq_atom : ℕ → String → Bool → KpiNode F
    boolean_exists_atom : ℕ → String → KpiNode F
    boolean_not_exists_atom : ℕ → String → KpiNode F
    numeric_eq_atom : ℕ → String → F → KpiNode F
    numeric_neq_atom : ℕ → String → F → KpiNode F
    numeric_gt_atom : ℕ → String → F → KpiNode F
    numeric_geq_atom : ℕ → String → F → KpiNode F
    numeric_lt_atom : ℕ → String → F → KpiNode F
    numeric_leq_atom : ℕ → String → F → KpiNode F
    numeric_exists_atom : ℕ → String → KpiNode F
    numeric_not_exists_atom : ℕ → String → KpiNode F
    logical_operation : String → KpiNodes F → KpiNode F

  pub data KpiNodes (F : Type 0) : Type 0 where
    no_nodes : KpiNodes F
    node_and : KpiNode F → KpiNodes F → KpiNodes F

-- `GetType`
unfoldable pub get_type : {F : Type 0} → KpiNode F → String
get_type (string_eq_atom _ _ _) = "string_eq_atom"
get_type (string_neq_atom _ _ _) = "string_neq_atom"
get_type (string_exists_atom _ _) = "string_exists_atom"
get_type (string_not_exists_atom _ _) = "string_not_exists_atom"
get_type (boolean_eq_atom _ _ _) = "boolean_eq_atom"
get_type (boolean_neq_atom _ _ _) = "boolean_neq_atom"
get_type (boolean_exists_atom _ _) = "boolean_exists_atom"
get_type (boolean_not_exists_atom _ _) = "boolean_not_exists_atom"
get_type (numeric_eq_atom _ _ _) = "numeric_eq_atom"
get_type (numeric_neq_atom _ _ _) = "numeric_neq_atom"
get_type (numeric_gt_atom _ _ _) = "numeric_gt_atom"
get_type (numeric_geq_atom _ _ _) = "numeric_geq_atom"
get_type (numeric_lt_atom _ _ _) = "numeric_lt_atom"
get_type (numeric_leq_atom _ _ _) = "numeric_leq_atom"
get_type (numeric_exists_atom _ _) = "numeric_exists_atom"
get_type (numeric_not_exists_atom _ _) = "numeric_not_exists_atom"
get_type (logical_operation _ _) = "logical_operation"

pub record KpiDefinitionMpu (F : Type 0) : Type 0 where
  pub id : Option ℕ
  pub user_id : ℕ
  pub sd_type_uid : String
  pub root_node : KpiNode F
  pub sd_instance_mode : String
  pub selected_sd_instance_uids : List String

-- A definition as it is stored; the numbers in it are `uint32`s.
pub record KpiDefinition (F : Type 0) : Type 0 where
  pub id : Option ℕ
  pub label : String
  pub user_id : Option ℕ
  pub sd_type_id : ℕ
  pub sd_type_specification : String
  pub user_identifier : String
  pub root_node : KpiNode F
  pub sd_instance_mode : String
  pub selected_sd_instance_ids : List ℕ
