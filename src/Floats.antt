-- ===== src/Floats.antt =====
-- The float64 numbers of Go, as a record of the operations that the code uses. Their arithmetic is
-- no part of the repository; a statement that needs a law of it takes the law as a hypothesis.
pub mod Whole
use opencensus_go.Prelude.{ℕ, Bool, ◌≡◌, true, false}

pub record Floats (F : Type 0) : Type 0 where
  pub zero : F
  -- `float64(n)` of an int64, which is given as its bit pattern.
  pub of_int : ℕ → F
  pub max_float : F
  pub smallest_nonzero : F
  pub add : F → F → F
  pub sub : F → F → F
  pub mul : F → F → F
  pub div : F → F → F
  -- `math.Pow(a, 2)`, and the constant 1e-9.
  pub square : F → F
  pub epsilon : F
  pub less : F → F → Bool
  -- `a == b`, and the conversion `int64(a)` as a bit pattern.
  pub equal : F → F → Bool
  pub to_int : F → ℕ
  -- The constants 1 and 2 ^ 63, and the conversion `uint64(a)`.
  pub one : F
  pub two_to_63 : F
  pub to_uint : F → ℕ
