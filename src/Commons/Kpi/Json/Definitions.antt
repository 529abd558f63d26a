-- ===== src/Commons/Kpi/Json/Definitions.antt =====
-- What comes back of a definition that was written as JSON by
-- backend/commons/src/sharedModel/json.go.
use rio_t_preprocessors.Base.{
  ℕ, String, string_eq, nat_eq, Option, none, some, List, [], ◌∷◌, ◌≡◌, refl, Option-cases, inl,
  inr, arith, zero, suc,
}
use rio_t_preprocessors.Commons.Json.{
  Value, field_for, equal_fold, fold_codes, read_field, as_texts-text_values,
}
use rio_t_preprocessors.Commons.Kpi.{KpiNode, KpiDefinitionMpu}
use rio_t_preprocessors.Commons.Kpi.Json.{
  Numbers, Outcome, decoded, failed, panicked, marshal_kpi_node, unmarshal_kpi_node,
  definition_members, marshal_definition, unmarshal_definition, root_member, outcome_map,
}
use rio_t_preprocessors.Commons.Kpi.Json.RoundTrip.{
  NumberLaws, IsUint32, IsNode, unmarshal_kpi_node-marshal_kpi_node,
}

abbrev pub IsOptionalId : Option ℕ → Type 0
IsOptionalId none = Unit
IsOptionalId (some id) = IsUint32 id

-- The IDs of a definition are `uint32`s.
unfoldable pub IsDefinition : {F : Type 0} → KpiDefinitionMpu F → Type 0
IsDefinition d = IsOptionalId d.id × IsUint32 d.user_id × IsNode d.root_node

module _ {N F : Type 0} (numbers : Numbers N F) (laws : NumberLaws numbers) (zero_float : F) where
  -- What decoding makes of the members that a definition is written as, with any root node.
  abbrev pub with_root : KpiDefinitionMpu F → Outcome (KpiNode F) → Outcome (KpiDefinitionMpu F)
  with_root d (decoded node) = decoded record d { root_node = node }
  with_root d failed = failed
  with_root d panicked = panicked

  last_lem :
      (d : KpiDefinitionMpu F) (found : Outcome (KpiNode F))
      → outcome_map (λ (node : KpiNode F). record d { root_node = node }) found ≡ with_root d found
  last_lem d (decoded node) = refl
  last_lem d failed = refl
  last_lem d panicked = refl

  pub definition_back :
      (id : Option ℕ) (user_id : ℕ) (sd_type_uid : String) (node : KpiNode F) (mode : String)
      (uids : List String) (root : Value N)
      → IsOptionalId id
      → IsUint32 user_id
      → let d : KpiDefinitionMpu F = record {
        id = id;
        user_id = user_id;
        sd_type_uid = sd_type_uid;
        root_node = node;
        sd_instance_mode = mode;
        selected_sd_instance_uids = uids;
      } in
        unmarshal_definition numbers zero_float
          (Value.object (definition_members numbers zero_float d root))
        ≡ with_root d (unmarshal_kpi_node numbers zero_float root)
  unfolding unmarshal_definition root_member read_field field_for equal_fold fold_codes
  definition_back none zero sd_type_uid node mode [] root h g =
      last_lem
        (record {
          id = none;
          user_id = zero;
          sd_type_uid = sd_type_uid;
          root_node = node;
          sd_instance_mode = mode;
          selected_sd_instance_uids = [];
        })
        (unmarshal_kpi_node numbers zero_float root)
  definition_back none zero sd_type_uid node mode (s ∷ rest) root h g =
      rw (unmarshal_definition, as_texts-text_values N (s ∷ rest))
        (last_lem
          (record {
            id = none;
            user_id = zero;
            sd_type_uid = sd_type_uid;
            root_node = node;
            sd_instance_mode = mode;
            selected_sd_instance_uids = (s ∷ rest);
          })
          (unmarshal_kpi_node numbers zero_float root))
  definition_back none (suc k) sd_type_uid node mode [] root h g =
      rw (unmarshal_definition, laws.uint32_back (suc k) g)
        (last_lem
          (record {
            id = none;
            user_id = (suc k);
            sd_type_uid = sd_type_uid;
            root_node = node;
            sd_instance_mode = mode;
            selected_sd_instance_uids = [];
          })
          (unmarshal_kpi_node numbers zero_float root))
  definition_back none (suc k) sd_type_uid node mode (s ∷ rest) root h g =
      rw (unmarshal_definition, laws.uint32_back (suc k) g, as_texts-text_values N (s ∷ rest))
        (last_lem
          (record {
            id = none;
            user_id = (suc k);
            sd_type_uid = sd_type_uid;
            root_node = node;
            sd_instance_mode = mode;
            selected_sd_instance_uids = (s ∷ rest);
          })
          (unmarshal_kpi_node numbers zero_float root))
  definition_back (some i) zero sd_type_uid node mode [] root h g =
      rw (unmarshal_definition, laws.uint32_back i h)
        (last_lem
          (record {
            id = (some i);
            user_id = zero;
            sd_type_uid = sd_type_uid;
            root_node = node;
            sd_instance_mode = mode;
            selected_sd_instance_uids = [];
          })
          (unmarshal_kpi_node numbers zero_float root))
  definition_back (some i) zero sd_type_uid node mode (s ∷ rest) root h g =
      rw (unmarshal_definition, laws.uint32_back i h, as_texts-text_values N (s ∷ rest))
        (last_lem
          (record {
            id = (some i);
            user_id = zero;
            sd_type_uid = sd_type_uid;
            root_node = node;
            sd_instance_mode = mode;
            selected_sd_instance_uids = (s ∷ rest);
          })
          (unmarshal_kpi_node numbers zero_float root))
  definition_back (some i) (suc k) sd_type_uid node mode [] root h g =
      rw (unmarshal_definition, laws.uint32_back i h, laws.uint32_back (suc k) g)
        (last_lem
          (record {
            id = (some i);
            user_id = (suc k);
            sd_type_uid = sd_type_uid;
            root_node = node;
            sd_instance_mode = mode;
            selected_sd_instance_uids = [];
          })
          (unmarshal_kpi_node numbers zero_float root))
  definition_back (some i) (suc k) sd_type_uid node mode (s ∷ rest) root h g =
      rw
        (
          unmarshal_definition,
          laws.uint32_back i h,
          laws.uint32_back (suc k) g,
          as_texts-text_values N (s ∷ rest),
        )
        (last_lem
          (record {
            id = (some i);
            user_id = (suc k);
            sd_type_uid = sd_type_uid;
            root_node = node;
            sd_instance_mode = mode;
            selected_sd_instance_uids = (s ∷ rest);
          })
          (unmarshal_kpi_node numbers zero_float root))

  -- A definition whose IDs are `uint32`s comes back unchanged from its JSON, whatever its tree of nodes,
  -- if the numbers in it come back from theirs.
  pub unmarshal_definition-marshal_definition :
      (d : KpiDefinitionMpu F) (v : Value N)
      → IsDefinition d
      → marshal_definition numbers zero_float d ≡ some v
      → unmarshal_definition numbers zero_float v ≡ decoded d
  unfolding marshal_definition IsDefinition
  unmarshal_definition-marshal_definition d v h e =
      elim (Option-cases (marshal_kpi_node numbers d.root_node)) [
        | inl none_given ↦ ground (arith, none_given)
        | inr (root, given) ↦
            let same : v ≡ Value.object (definition_members numbers zero_float d root) =
              ground (arith, e, given) in
            rw
              (
                same,
                definition_back d.id d.user_id d.sd_type_uid d.root_node d.sd_instance_mode
                    d.selected_sd_instance_uids root h.0 h.1,
                unmarshal_kpi_node-marshal_kpi_node numbers laws zero_float d.root_node root h.2
                    given,
              )
              refl
      ]
