-- ===== src/Examples/Api.antt =====
-- The API's models at concrete inputs.
use analytics_hub.Prelude.{ℕ, ◌+◌, ◌-◌, ◌*◌, ◌/◌, ltb, leb}
use analytics_hub.Prelude.Float.{FloatOps}

-- Fractions, which round up exactly.
abbrev fractions : FloatOps
fractions = record {
  F = ℕ × ℕ;
  of_nat = λ n. (n, 1);
  to_nat = λ x. x.0 / x.1;
  add = λ x y. (x.0 * y.1 + y.0 * x.1, x.1 * y.1);
  sub = λ x y. (x.0 * y.1 - y.0 * x.1, x.1 * y.1);
  mul = λ x y. (x.0 * y.0, x.1 * y.1);
  div = λ x y. (x.0 * y.1, x.1 * y.0);
  sqrt = λ x. x;
  abs = λ x. x;
  ceil = λ x. ((x.0 + x.1 - 1) / x.1, 1);
  max = λ x y. x;
  min = λ x y. y;
  lt = λ x y. ltb (x.0 * y.1) (y.0 * x.1);
  le = λ x y. leb (x.0 * y.1) (y.0 * x.1);
}
