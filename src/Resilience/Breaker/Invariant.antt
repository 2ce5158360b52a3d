-- ===== src/Resilience/Breaker/Invariant.antt =====
-- What holds of a circuit breaker (src/resilience/circuit_breaker.rs) between two calls.
use analytics_hub.Prelude.{ℕ, ◌≤◌, ◌<◌, ◌≡◌, ◌≢◌, none, List, [], ◌∷◌, arith, u64_max}
use analytics_hub.Resilience.Breaker.{
  CircuitBreaker, closed, open_circuit, half_open, Call, available_call, success_call, failure_call,
  reset_call, new, step, run,
}

pub record IsValid (b : CircuitBreaker) : Type 0 where
  pub representable : b.failure_threshold ≤ u64_max
  pub closed_below : b.state ≡ closed → b.failure_count ≢ 0 → b.failure_count < b.failure_threshold
  pub closed_fresh : b.state ≡ closed → b.success_count ≡ 0
  pub open_timed : b.state ≡ open_circuit → b.last_failure_time ≢ none
  pub open_no_success : b.state ≡ open_circuit → b.success_count ≡ 0
  pub half_open_below : b.state ≡ half_open → b.success_count < 3
  pub half_open_no_failure : b.state ≡ half_open → b.failure_count ≡ 0

pub new-IsValid : (threshold timeout : ℕ) → threshold ≤ u64_max → IsValid (new threshold timeout)
unfolding new
new-IsValid threshold timeout h = ground arith

pub step-IsValid : (b : CircuitBreaker) (c : Call) → IsValid b → IsValid (step b c)
unfolding step
step-IsValid b (available_call now) v = ground arith
step-IsValid b success_call v = ground arith
step-IsValid b (failure_call now) v = ground arith
step-IsValid b reset_call v = ground arith

-- Whatever calls the tasks make, and in whatever order, every state of the breaker that they reach
-- from a valid one is valid: a closed breaker has counted no failure or fewer than its threshold, an
-- open one knows when it last failed, and a half-open one has counted no failure and fewer than
-- three successes.
pub run-IsValid : (b : CircuitBreaker) (cs : List Call) → IsValid b → IsValid (run b cs)
unfolding run
run-IsValid b [] v = v
run-IsValid b (c ∷ cs) v = run-IsValid (step b c) cs (step-IsValid b c v)

pub failure_threshold-step :
    (b : CircuitBreaker) (c : Call) → (step b c).failure_threshold ≡ b.failure_threshold
unfolding step
failure_threshold-step b (available_call now) = ground arith
failure_threshold-step b success_call = ground arith
failure_threshold-step b (failure_call now) = ground arith
failure_threshold-step b reset_call = ground arith

pub timeout-step : (b : CircuitBreaker) (c : Call) → (step b c).timeout ≡ b.timeout
unfolding step
timeout-step b (available_call now) = ground arith
timeout-step b success_call = ground arith
timeout-step b (failure_call now) = ground arith
timeout-step b reset_call = ground arith
