-- ===== src/Resilience/Retry.antt =====
-- src/resilience/retry.rs. The operation is the sequence of outcomes of its calls, and the delays
-- are the whole milliseconds of the `Duration`s that the loop sleeps for.
pub mod Attempts
pub mod Backoff
use Prim.Native.Nat.{min}
use mathlib.Core.Option
use analytics_hub.Prelude.{
  ℕ, zero, suc, ◌+◌, Option, none, some, List, [], ◌∷◌, leb, if◌then◌else◌, u64, Outcome, ok, err,
}
use analytics_hub.Prelude.Float.{FloatOps}

pub record RetryPolicy (F : Type 0) : Type 0 where
  pub max_attempts : ℕ
  pub initial_delay : ℕ
  pub max_delay : ℕ
  pub multiplier : F

unfoldable pub new : {F : Type 0} → ℕ → ℕ → F → RetryPolicy F
new max_attempts initial_delay_ms multiplier = record {
  max_attempts = max_attempts;
  initial_delay = initial_delay_ms;
  max_delay = 30000;
  multiplier = multiplier;
}

-- What `execute` returns, with the number of calls that it made and the delays that it slept.
pub record Execution (T E : Type 0) : Type 0 where
  pub result : Outcome T E
  pub attempts : ℕ
  pub delays : List ℕ

module _ (f : FloatOps) (p : RetryPolicy f.F) where
  -- The next `delay`: scaled by the multiplier and capped.
  unfoldable pub next_delay : ℕ → ℕ
  next_delay delay = min (f.to_nat (f.mul (f.of_nat delay) p.multiplier)) p.max_delay

module _ (f : FloatOps) (p : RetryPolicy f.F) {T E : Type 0} where
  abbrev pub slept : ℕ → Execution T E → Execution T E
  slept delay x = record x { delays = delay ∷ x.delays }

  -- The `match` on the outcome of one call; `rest` is what the later turns of the loop return.
  unfoldable pub after_attempt :
      Outcome T E → ℕ → ℕ → Option (Execution T E) → Option (Execution T E)
  after_attempt (ok result) attempts delay rest =
      some (record { result = ok result; attempts = attempts; delays = [] })
  after_attempt (err e) attempts delay rest =
      if leb p.max_attempts attempts
      then some (record { result = err e; attempts = attempts; delays = [] })
      else Option.map (slept delay) rest

module _ (f : FloatOps) (p : RetryPolicy f.F) {T E : Type 0} (operation : ℕ → Outcome T E) where
  unfoldable pub retry_loop : ℕ → ℕ → ℕ → Option (Execution T E)
  retry_loop zero attempts delay = none
  retry_loop (suc fuel) attempts delay =
      let attempts' = u64 (attempts + 1) in
      let rest = retry_loop fuel attempts' (next_delay f p delay) in
      after_attempt f p (operation attempts) attempts' delay rest

  -- The fuel is one turn more than the attempts allowed.
  unfoldable pub execute : Option (Execution T E)
  execute = retry_loop (p.max_attempts + 1) 0 p.initial_delay
