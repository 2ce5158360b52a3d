-- ===== src/Resilience/Compose/Outage.antt =====
-- A service that is down, behind `execute_with_resilience` of src/resilience/mod.rs.
use mathlib.Core.Option
use analytics_hub.Prelude.{ℕ, suc, ◌+◌, ◌-◌, ◌≤◌, Option, some, none, List, [], ◌∷◌, Outcome, err}
use analytics_hub.Prelude.Float.{FloatOps}
use analytics_hub.Resilience.Breaker.{CircuitBreaker}
use analytics_hub.Resilience.Retry.{RetryPolicy}
use analytics_hub.Resilience.Compose.{Served, execute_with_resilience}

-- How often an exhausted retry calls the operation: at least once.
abbrev pub rounds : {F : Type 0} → RetryPolicy F → ℕ
rounds p = suc (p.max_attempts - 1)

-- The operation of a service that is down: every call fails.
abbrev pub down : (T : Type 0) {E : Type 0} → (ℕ → E) → ℕ → Outcome T E
down T failure k = err (failure k)

-- All times lie within one timeout of the breaker from the instant `from` on.
abbrev pub InOneTimeout : ℕ → ℕ → List (ℕ × ℕ) → Type 0
InOneTimeout timeout from [] = Unit
InOneTimeout timeout from ((now, later) ∷ uses) =
    (now ≤ from + timeout) × (from ≤ later) × InOneTimeout timeout from uses

module _ (f : FloatOps) (p : RetryPolicy f.F) {T E : Type 0} (operation : ℕ → Outcome T E) where
  after_use : Option (Served T E) → (CircuitBreaker → Option ℕ) → Option ℕ
  after_use none rest = none
  after_use (some s) rest = Option.map (λ n. s.calls + n) (rest s.breaker)

  -- Uses one after another; each has the time at which it starts and that at which it ends. The
  -- result is how often they call the operation in all.
  pub total_calls : List (ℕ × ℕ) → CircuitBreaker → Option ℕ
  total_calls [] b = some 0
  total_calls ((now, later) ∷ uses) b =
      after_use (execute_with_resilience f p operation b now [] later) (total_calls uses)
