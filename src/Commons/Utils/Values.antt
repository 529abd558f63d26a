-- ===== src/Commons/Utils/Values.antt =====
-- optional.go, result.go, pair.go, json.go, environment.go, strings.go and ternaryOperator.go of
-- backend/commons/src/sharedUtils. A call that may panic has an Option as its answer, with `none` for
-- the panic; `zero` is the zero value of the payload's type.
use rio_t_preprocessors.Base.{
  Bool, true, false, ◌&&◌, ◌||◌, not, Eq, ◌==◌, string_eq, String, if◌then◌else◌, Option, none,
  some, ◌≡◌, refl, arith,
}

pub record Optional (T : Type 0) : Type 0 where
  pub payload : T
  pub is_present : Bool

pub record Result (T E : Type 0) : Type 0 where
  pub payload : T
  pub err : Option E
  pub is_success : Bool

pub record Pair (T U : Type 0) : Type 0 where
  pub e1 : T
  pub e2 : U

unfoldable pub ternary : {T : Type 0} → Bool → T → T → T
ternary cond r1 r2 = if cond then r1 else r2

module _ {T U : Type 0} where
  unfoldable pub new_pair_of : T → U → Pair T U
  new_pair_of e1 e2 = record { e1 = e1; e2 = e2 }

  unfoldable pub get_first : Pair T U → T
  get_first p = p.e1

  unfoldable pub get_second : Pair T U → U
  get_second p = p.e2

module _ {T : Type 0} where
  unfoldable pub new_optional_of : T → Optional T
  new_optional_of payload = record { payload = payload; is_present = true }

  unfoldable pub new_empty_optional : T → Optional T
  new_empty_optional zero = record { payload = zero; is_present = false }

  -- A pointer that may be nil is an Option.
  unfoldable pub new_optional_from_pointer : T → Option T → Optional T
  new_optional_from_pointer zero none = new_empty_optional zero
  new_optional_from_pointer zero (some value) = new_optional_of value

  unfoldable pub is_empty : Optional T → Bool
  is_empty o = not o.is_present

  unfoldable pub get_payload : Optional T → Option T
  unfolding is_empty
  get_payload o = if is_empty o then none else some o.payload

  unfoldable pub get_payload_or_default : Optional T → T → Option T
  unfolding get_payload
  get_payload_or_default o def = if o.is_present then get_payload o else some def

  unfoldable pub to_pointer : Optional T → Option T
  to_pointer o = if o.is_present then some o.payload else none

  unfoldable pub both_equal : ⦃e : Eq T⦄ → Option T → Option T → Option Bool
  both_equal (some x) (some y) = some (x == y)
  both_equal _ _ = none

  unfoldable pub optional_comparer : ⦃e : Eq T⦄ → Optional T → Optional T → Option Bool
  unfolding is_empty get_payload both_equal
  optional_comparer x y =
      if (x.is_present && is_empty y) || (is_empty x && y.is_present)
      then some false
      else if is_empty x && is_empty y
      then some true
      else both_equal (get_payload x) (get_payload y)

  -- The comparison of what two pointers may point to.
  abbrev same_value : ⦃e : Eq T⦄ → Option T → Option T → Bool
  same_value none none = true
  same_value none (some y) = false
  same_value (some x) none = false
  same_value (some x) (some y) = x == y

  -- Comparing never panics, and the payload of an absent value is not compared.
  pub optional_comparer_lem :
      ⦃e : Eq T⦄ (x y : Optional T)
      → optional_comparer x y ≡ some (same_value (to_pointer x) (to_pointer y))
  unfolding optional_comparer to_pointer
  optional_comparer_lem x y = ground arith

  -- A pointer survives the way through an Optional and back.
  pub to_pointer-new_optional_from_pointer :
      (zero : T) (pointer : Option T)
      → to_pointer (new_optional_from_pointer zero pointer) ≡ pointer
  unfolding to_pointer new_optional_from_pointer new_empty_optional new_optional_of
  to_pointer-new_optional_from_pointer zero none = refl
  to_pointer-new_optional_from_pointer zero (some value) = refl

module _ {T E : Type 0} where
  unfoldable pub new_success_result : T → Result T E
  new_success_result payload = record { payload = payload; err = none; is_success = true }

  unfoldable pub new_failure_result : T → E → Result T E
  new_failure_result zero err = record { payload = zero; err = some err; is_success = false }

  unfoldable pub is_failure : Result T E → Bool
  is_failure r = not r.is_success

  unfoldable pub result_payload : Result T E → Option T
  unfolding is_failure
  result_payload r = if is_failure r then none else some r.payload

  unfoldable pub result_error : Result T E → Option (Option E)
  result_error r = if r.is_success then none else some r.err

  unfoldable pub unwrap : Result T E → T × Option E
  unwrap r = (r.payload, r.err)

-- `json.Marshal` and `json.Unmarshal` are parameters of the functions of json.go.
module _ {T E : Type 0} where
  unfoldable pub result_of : T → (T × Option E) → Result T E
  unfolding new_success_result new_failure_result
  result_of zero (value, none) = new_success_result value
  result_of zero (value, some err) = new_failure_result zero err

  unfoldable pub deserialize_from_json : (String → T × Option E) → T → String → Result T E
  unfolding result_of
  deserialize_from_json unmarshal zero text = result_of zero (unmarshal text)

  unfoldable pub serialize_to_json : (T → String × Option E) → T → Result String E
  unfolding new_success_result new_failure_result
  serialize_to_json marshal object = elim (marshal object).1 [
    | none ↦ new_success_result (marshal object).0
    | some err ↦ new_failure_result "" err
  ]

  unfoldable pub compare_jsons : (T → String × Option E) → T → T → Bool
  unfolding serialize_to_json is_failure
  compare_jsons marshal a b =
      let aj = serialize_to_json marshal a in
      let bj = serialize_to_json marshal b in
      if is_failure aj || is_failure bj then false else aj.payload == bj.payload

-- `GetFlagEnvironmentVariableValue`; `parse_bool` is `strconv.ParseBool`.
unfoldable pub flag_value : (String → Option Bool) → Optional String → Optional Bool
unfolding new_empty_optional new_optional_of is_empty new_optional_from_pointer
flag_value parse_bool value =
    if is_empty value
    then new_empty_optional false
    else if value.payload == ""
    then new_optional_of true
    else new_optional_from_pointer false (parse_bool value.payload)

unfoldable pub environment_variable_value : (String → Option String) → String → Optional String
unfolding new_optional_from_pointer
environment_variable_value lookup_env name = new_optional_from_pointer "" (lookup_env name)

unfoldable pub flag_environment_variable_value :
    (String → Option Bool) → (String → Option String) → String → Optional Bool
unfolding flag_value environment_variable_value
flag_environment_variable_value parse_bool lookup_env name =
    flag_value parse_bool (environment_variable_value lookup_env name)
