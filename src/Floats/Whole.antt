-- ===== src/Floats/Whole.antt =====
-- Whole numbers in place of floats, on which the examples run.
use opencensus_go.Floats.{Floats}
use opencensus_go.Prelude.{ℕ, ◌+◌, ◌-◌, ◌*◌, ◌^◌, ltb, ◌==◌, nat_eq}

-- Whole numbers, shifted by 1000 so that there are negative ones.
abbrev pub whole : Floats ℕ
whole = record {
  zero = 1000;
  of_int = λ n. n + 1000;
  max_float = 2000;
  smallest_nonzero = 1001;
  add = λ a b. a + b - 1000;
  sub = λ a b. a + 1000 - b;
  mul = λ a b. 1000 + (a - 1000) * (b - 1000);
  div = λ a b. a;
  square = λ a. 1000 + (a - 1000) * (a - 1000);
  epsilon = 1001;
  less = λ a b. ltb a b;
  equal = λ a b. a == b;
  to_int = λ a. a - 1000;
  one = 1001;
  two_to_63 = 1000 + 2 ^ 63;
  to_uint = λ a. a - 1000;
}
