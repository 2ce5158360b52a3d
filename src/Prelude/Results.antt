-- ===== src/Prelude/Results.antt =====
-- `Result<T, E>` of the source.
use mathlib.Core.Bool.{Bool, true, false}

pub data Outcome {ℓ κ} (T : Type ℓ) (E : Type κ) : Type (ℓ ⊔ κ) where
  ok : T → Outcome T E
  err : E → Outcome T E

infixl 5 ◌>>=◌
abbrev pub ◌>>=◌ {ℓ κ υ} :
    {T : Type ℓ} {U : Type υ} {E : Type κ} → Outcome T E → (T → Outcome U E) → Outcome U E
ok a >>= f = f a
err e >>= f = err e

abbrev pub is_ok {ℓ κ} : {T : Type ℓ} {E : Type κ} → Outcome T E → Bool
is_ok (ok _) = true
is_ok (err _) = false

abbrev pub map_err {ℓ κ υ} :
    {T : Type ℓ} {E : Type κ} {F : Type υ} → (E → F) → Outcome T E → Outcome T F
map_err f (ok a) = ok a
map_err f (err e) = err (f e)
