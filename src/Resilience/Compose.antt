-- ===== src/Resilience/Compose.antt =====
-- `execute_with_resilience` and `ResilienceConfig` of src/resilience/mod.rs.
pub mod Outage
use mathlib.Core.Option
use analytics_hub.Prelude.{
  ℕ, ◌*◌, Option, none, some, Bool, true, false, List, Outcome, ok, err, map_err,
}
use analytics_hub.Prelude.Float.{FloatOps}
use analytics_hub.Resilience.Breaker.{
  CircuitBreaker, Call, is_available, record_success, record_failure, run,
}
use analytics_hub.Resilience.Retry.{RetryPolicy, Execution, execute}

pub record ResilienceConfig (F : Type 0) : Type 0 where
  pub failure_threshold : ℕ
  pub timeout_seconds : ℕ
  pub max_retries : ℕ
  pub retry_delay_ms : ℕ
  pub backoff_multiplier : F

-- The two errors that `anyhow` carries out.
pub data ResilienceError (E : Type 0) : Type 0 where
  breaker_open : ResilienceError E
  operation_failed : E → ResilienceError E

-- The breaker afterwards, the result, and how often the operation was called.
pub record Served (T E : Type 0) : Type 0 where
  pub breaker : CircuitBreaker
  pub result : Outcome T (ResilienceError E)
  pub calls : ℕ

module _ {T E : Type 0} where
  -- `match &result`: the instant is that of `Instant::now()` in `record_failure`.
  unfoldable pub record_result : Outcome T E → ℕ → CircuitBreaker → CircuitBreaker
  record_result (ok _) now b = record_success b
  record_result (err _) now b = record_failure now b

  unfoldable pub finish : CircuitBreaker → ℕ → Execution T E → Served T E
  unfolding record_result
  finish b now x = record {
    breaker = record_result x.result now b;
    result = map_err operation_failed x.result;
    calls = x.attempts;
  }

  abbrev pub refused : CircuitBreaker → Served T E
  refused b = record { breaker = b; result = err breaker_open; calls = 0 }

module _ (f : FloatOps) (p : RetryPolicy f.F) {T E : Type 0} (operation : ℕ → Outcome T E) where
  -- The branch on `is_available`; `others` are the calls that other tasks make on the breaker while
  -- this one retries, and `later` is the time at its end.
  unfoldable pub guarded : Bool → CircuitBreaker → List Call → ℕ → Option (Served T E)
  guarded true b others later = Option.map (finish (run b others) later) (execute f p operation)
  guarded false b others later = some (refused b)

  unfoldable pub execute_with_resilience : CircuitBreaker → ℕ → List Call → ℕ → Option (Served T E)
  unfolding guarded
  execute_with_resilience b now others later =
      let (b', available) = is_available now b in guarded available b' others later
