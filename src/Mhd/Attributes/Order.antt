-- ===== src/Mhd/Attributes/Order.antt =====
-- lookupAttribute in backend/mhd-preprocessor/src/helpers.go: when its answer does not depend on the
-- order in which Go visits a map.
use rio_t_preprocessors.Base.{String, string_eq, some, List, [], ◌∷◌, ◌≡◌, refl, sym, ◌∙◌}
use rio_t_preprocessors.Base.Maps.{lookup}
use rio_t_preprocessors.Commons.Json.{Value}
use rio_t_preprocessors.Mhd.Attributes.{Attributes, exact_attribute, lookup_attribute, or_nil}

module _ {F : Type 0} where
  -- Two lists with the same lookups are one map, visited in two orders.
  exact_attribute-same :
      (a b : Attributes F) (keys : List String)
      → ((key : String) → lookup key a ≡ lookup key b)
      → exact_attribute a keys ≡ exact_attribute b keys
  unfolding exact_attribute
  exact_attribute-same a b [] same = refl
  exact_attribute-same a b (key ∷ keys) same =
      rw (same key, exact_attribute-same a b keys same) refl

  -- Where a key stands in the map exactly as it is asked for, the answer is the same in whatever
  -- order the map is visited.
  pub lookup_attribute-order :
      (a b : Attributes F) (keys : List String) (value : Value F)
      → ((key : String) → lookup key a ≡ lookup key b)
      → exact_attribute a keys ≡ some value
      → lookup_attribute a keys ≡ lookup_attribute b keys
  unfolding lookup_attribute or_nil
  lookup_attribute-order a b keys value same found =
      let there = sym (exact_attribute-same a b keys same) ∙ found in rw (found, there) refl
