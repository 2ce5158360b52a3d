-- ===== src/Prelude/Float.antt =====
-- `f64`: its operations, as a parameter of what computes with it. `as f64` and `as u64` are
-- `of_nat` and `to_nat`.
use Prim.Native.Nat.{ℕ}
use mathlib.Core.Bool.{Bool}

pub record FloatOps : Type 1 where
  pub F : Type 0
  pub of_nat : ℕ → F
  pub to_nat : F → ℕ
  pub add : F → F → F
  pub sub : F → F → F
  pub mul : F → F → F
  pub div : F → F → F
  pub sqrt : F → F
  pub abs : F → F
  pub ceil : F → F
  pub max : F → F → F
  pub min : F → F → F
  pub lt : F → F → Bool
  pub le : F → F → Bool
