-- ===== src/Api/Pages.antt =====
-- How the pages of src/models/api.rs cover the items.
use analytics_hub.Prelude.{ℕ, ◌*◌, ◌≤◌, ◌<◌}
use analytics_hub.Prelude.Float.{FloatOps}

-- `f64` divides whole numbers below 2^52 finely enough for the quotient to be rounded up to the
-- right whole number.
pub record RoundsUp (f : FloatOps) (limit : ℕ) : Type 0 where
  pub enough :
      (a b : ℕ) → a < limit → 0 < b → a ≤ f.to_nat (f.ceil (f.div (f.of_nat a) (f.of_nat b))) * b
  pub no_more :
      (a b q : ℕ)
      → a < limit
      → 0 < b
      → a ≤ q * b
      → f.to_nat (f.ceil (f.div (f.of_nat a) (f.of_nat b))) ≤ q
