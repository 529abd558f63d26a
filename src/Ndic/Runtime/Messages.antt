-- ===== src/Ndic/Runtime/Messages.antt =====
-- What a state message says of its instance: active or not.
use rio_t_preprocessors.Base.{
  Bool, true, false, not, String, string_eq, ◌==◌, none, some, List, [], ◌∷◌, ◌++◌, ◌≡◌, refl,
  arith, Option, map, filter_b, ◌∙◌,
}
use rio_t_preprocessors.Base.Int.{ℤ}
use rio_t_preprocessors.Base.Maps.{Dict, lookup, lookup-insert, lookup-insert_self}
use rio_t_preprocessors.Base.Time.{Time}
use rio_t_preprocessors.Commons.Messages.{Param, flag, StateMessage}
use rio_t_preprocessors.Ndic.Model.{Snapshot, TmcMetadata}
use rio_t_preprocessors.Ndic.Publish.{
  set_param, set_coordinates, as_number, tags_to_params, build_active_params, build_inactive_params,
  build_state_message,
}

module _ {F : Type 0} where
  abbrev is_set : Option (Param F) → Bool
  is_set (some (flag b)) = b
  is_set _ = false

  -- The message says that its instance is inactive.
  abbrev pub reports_inactive : StateMessage F → Bool
  reports_inactive m = is_set (lookup "isInactive" m.parameters)

  -- The instances that messages report as active, and as inactive, in order.
  abbrev pub active_uids : List (StateMessage F) → List String
  active_uids ms = map (λ m. m.sd_instance_uid) (filter_b (λ m. not (reports_inactive m)) ms)

  abbrev pub inactive_uids : List (StateMessage F) → List String
  inactive_uids ms = map (λ m. m.sd_instance_uid) (filter_b reports_inactive ms)

  pub active_uids-append :
      (ms ns : List (StateMessage F)) → active_uids (ms ++ ns) ≡ active_uids ms ++ active_uids ns
  active_uids-append [] ns = refl
  active_uids-append (m ∷ ms) ns = ground (arith, active_uids-append ms ns)

  pub inactive_uids-append :
      (ms ns : List (StateMessage F))
      → inactive_uids (ms ++ ns) ≡ inactive_uids ms ++ inactive_uids ns
  inactive_uids-append [] ns = refl
  inactive_uids-append (m ∷ ms) ns = ground (arith, inactive_uids-append ms ns)

  lookup-set_param_ne :
      (k j : String) (v : Option (Param F)) (params : Dict String (Param F))
      → (k == j) ≡ false
      → lookup j (set_param k v params) ≡ lookup j params
  unfolding set_param
  lookup-set_param_ne k j none params h = refl
  lookup-set_param_ne k j (some v) params h = ground (arith, lookup-insert k j v params)

  lookup-set_coordinates :
      (meta : Option (TmcMetadata F)) (params : Dict String (Param F))
      → lookup "isInactive" (set_coordinates meta params) ≡ lookup "isInactive" params
  unfolding set_coordinates
  lookup-set_coordinates none params = refl
  lookup-set_coordinates (some meta) params =
      lookup-set_param_ne "tmcLongitude" "isInactive" (as_number meta.longitude)
        (set_param "tmcLatitude" (as_number meta.latitude) params) refl
      ∙ lookup-set_param_ne "tmcLatitude" "isInactive" (as_number meta.latitude) params refl

  pub reports_inactive-active :
      (float_of_int : ℤ → F) (uid : String) (t : Time) (tags : Dict String String)
      (snapshot : Snapshot F)
      → reports_inactive
          (build_state_message uid t (build_active_params float_of_int tags snapshot))
        ≡ false
  unfolding build_state_message build_active_params
  reports_inactive-active float_of_int uid t tags snapshot =
      rw (lookup-set_coordinates, lookup-insert_self)

pub reports_inactive-inactive :
    (F : Type 0) (uid : String) (t : Time) (tags : Dict String String)
    → reports_inactive {F = F} (build_state_message uid t (build_inactive_params tags)) ≡ true
unfolding build_state_message build_inactive_params
reports_inactive-inactive F uid t tags =
    rw (lookup-insert_self "isInactive" (flag true) (tags_to_params {F = F} tags))
