-- ===== src/Float.antt =====
-- Python's `float` as a parameter: antt has no floating-point numbers. The package compares, adds,
-- subtracts and scales seconds; no value of a float is ever computed in a proof. `FloatLaws` has
-- the facts that some theorems take as a hypothesis.
use plugshub_common.Common.{ℕ, ◌+◌, ◌-◌, ◌*◌, ◌^◌, ◌≡◌, Bool, false, Option, some, arith, ltb, leb}

pub record Float : Type 1 where
  pub F : Type 0
  -- A literal: `decimal 25 1` is 2.5.
  pub decimal : ℕ → ℕ → F
  pub add : F → F → F
  pub sub : F → F → F
  pub mul : F → F → F
  -- `x ** n`; nothing where Python raises `OverflowError`.
  pub pow : F → ℕ → Option F
  -- `x < y`, `x <= y`
  pub lt : F → F → Bool
  pub le : F → F → Bool

-- Comparison of floats that are no NaN: `<` is irreflexive, and its negation is transitive.
pub record FloatLaws (fl : Float) : Type 0 where
  pub lt_irrefl : (x : fl.F) → fl.lt x x ≡ false
  pub not_lt_trans : (x y z : fl.F) → fl.lt x y ≡ false → fl.lt y z ≡ false → fl.lt x z ≡ false

-- The instance used in the tests: whole numbers, a decimal by its digits.
abbrev pub whole : Float
whole = record {
  F = ℕ;
  decimal = λ n k. n;
  add = λ x y. x + y;
  sub = λ x y. x - y;
  mul = λ x y. x * y;
  pow = λ x n. some (x ^ n);
  lt = ltb;
  le = leb;
}

pub whole-FloatLaws : FloatLaws whole
whole-FloatLaws = record { lt_irrefl = λ x. ground arith; not_lt_trans = λ x y z h k. ground arith }
