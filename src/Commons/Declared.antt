-- ===== src/Commons/Declared.antt =====
-- The parameters of a message against the declaration of their type, which a preprocessor publishes
-- when it starts: a key is declared with the type of the value.
use rio_t_preprocessors.Base.{
  String, string_eq, ◌==◌, if◌then◌else◌, Option, none, some, List, [], ◌∷◌, ◌≡◌, All,
}
use rio_t_preprocessors.Base.Maps.{Dict, insert, All-insert}
use rio_t_preprocessors.Commons.Messages.{
  Param, text, number, flag, SdParameter, SdParameterType, string_type, number_type, boolean_type,
  SdParameterRole, SdTypeRegistration,
}

abbrev pub parameter : String → String → SdParameterType → SdParameterRole → SdParameter
parameter denotation label type role = record {
  denotation = denotation;
  type = type;
  label = label;
  role = role;
}

abbrev pub type_of : {F : Type 0} → Param F → SdParameterType
type_of (text s) = string_type
type_of (number x) = number_type
type_of (flag b) = boolean_type

abbrev pub declared_type : List SdParameter → String → Option SdParameterType
declared_type [] key = none
declared_type (p ∷ rest) key = if p.denotation == key then some p.type else declared_type rest key

abbrev pub IsDeclared : {F : Type 0} → SdTypeRegistration → String × Param F → Type 0
IsDeclared registration e = declared_type registration.parameters e.0 ≡ some (type_of e.1)

-- A tag becomes a parameter that is a text.
abbrev pub IsDeclaredTag : SdTypeRegistration → String × String → Type 0
IsDeclaredTag registration e = declared_type registration.parameters e.0 ≡ some string_type

pub record DeclaredTags (registration : SdTypeRegistration) (tags : Dict String String)
    : Type 0 where
  pub each_tag : All (IsDeclaredTag registration) tags

pub record DeclaredParams {F : Type 0} (registration : SdTypeRegistration)
    (params : Dict String (Param F)) : Type 0 where
  pub each_param : All (IsDeclared registration) params

module _ {registration : SdTypeRegistration} where
  pub no_params : {F : Type 0} → DeclaredParams {F = F} registration []
  no_params = record { each_param = tt }

  pub insert-DeclaredTags :
      (key value : String) {tags : Dict String String}
      → declared_type registration.parameters key ≡ some string_type
      → DeclaredTags registration tags
      → DeclaredTags registration (insert key value tags)
  insert-DeclaredTags key value {tags} d h = record {
    each_tag = All-insert (IsDeclaredTag registration) key value tags d h.each_tag;
  }

  pub insert-DeclaredParams :
      {F : Type 0} (key : String) (value : Param F) {params : Dict String (Param F)}
      → declared_type registration.parameters key ≡ some (type_of value)
      → DeclaredParams registration params
      → DeclaredParams registration (insert key value params)
  insert-DeclaredParams {F} key value {params} d h = record {
    each_param = All-insert (IsDeclared registration) key value params d h.each_param;
  }
