-- ===== src/Base/Float.antt =====
-- Go's `float64` as an abstract type with the operations that the program uses. `lt` and `eq` are
-- the language's `<` and `==`, which are both false where an operand is not a number.
use rio_t_preprocessors.Base.{Bool, ℕ, ltb, nat_eq, ◌==◌, ◌+◌, ◌-◌, ◌*◌, ◌/◌}

pub record Float64 : Type 1 where
  pub F : Type 0
  pub f_zero : F
  pub f_one : F
  pub f_max : F
  pub lt : F → F → Bool
  pub eq : F → F → Bool
  pub add : F → F → F
  pub sub : F → F → F
  pub mul : F → F → F
  pub div : F → F → F

-- The whole numbers up to a million, on which an example can be computed.
abbrev pub whole : Float64
whole = record {
  F = ℕ;
  f_zero = 0;
  f_one = 1;
  f_max = 1000000;
  lt = ltb;
  eq = λ a b. a == b;
  add = λ a b. a + b;
  sub = λ a b. a - b;
  mul = λ a b. a * b;
  div = λ a b. a / b;
}
