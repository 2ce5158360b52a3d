-- ===== src/Resilience/Breaker.antt =====
-- src/resilience/circuit_breaker.rs. Each method holds the write lock for its whole body, so it is
-- one atomic step; `Instant::now()` is an argument, in nanoseconds on the monotonic clock.
pub mod Invariant
pub mod Opening
pub mod Recovery
use analytics_hub.Prelude.{
  ℕ, ◌+◌, ◌-◌, ◌*◌, Bool, true, false, Option, none, some, List, [], ◌∷◌, ltb, leb, if◌then◌else◌,
  u64,
}

pub data CircuitState : Type 0 where
  closed open_circuit half_open : CircuitState

-- `CircuitBreaker` with the `CircuitBreakerState` that it locks.
pub record CircuitBreaker : Type 0 where
  pub state : CircuitState
  pub failure_count : ℕ
  pub success_count : ℕ
  pub last_failure_time : Option ℕ
  pub failure_threshold : ℕ
  pub timeout : ℕ

pub record CircuitBreakerStats : Type 0 where
  pub state : CircuitState
  pub failure_count : ℕ
  pub success_count : ℕ

-- `Duration::from_secs`, in nanoseconds.
abbrev pub from_secs : ℕ → ℕ
from_secs s = s * 1000000000

unfoldable pub new : ℕ → ℕ → CircuitBreaker
new failure_threshold timeout_seconds = record {
  state = closed;
  failure_count = 0;
  success_count = 0;
  last_failure_time = none;
  failure_threshold = failure_threshold;
  timeout = from_secs timeout_seconds;
}

-- The `Open` arm of `is_available`; the difference of two instants saturates at 0.
open_available : ℕ → Option ℕ → CircuitBreaker → CircuitBreaker × Bool
open_available now none b = (b, false)
open_available now (some last_failure) b =
    if ltb b.timeout (now - last_failure)
    then (record b { state = half_open; failure_count = 0; success_count = 0 }, true)
    else (b, false)

available_in : CircuitState → ℕ → CircuitBreaker → CircuitBreaker × Bool
unfolding open_available
available_in closed now b = (b, true)
available_in open_circuit now b = open_available now b.last_failure_time b
available_in half_open now b = (b, true)

unfoldable pub is_available : ℕ → CircuitBreaker → CircuitBreaker × Bool
unfolding available_in
is_available now b = available_in b.state now b

success_in : CircuitState → CircuitBreaker → CircuitBreaker
success_in half_open b =
    let b' = record b { success_count = u64 (b.success_count + 1) } in
    if leb 3 b'.success_count
    then record b' {
      state = closed;
      failure_count = 0;
      success_count = 0;
      last_failure_time = none;
    }
    else b'
success_in closed b = record b { failure_count = 0 }
success_in open_circuit b = b

unfoldable pub record_success : CircuitBreaker → CircuitBreaker
unfolding success_in
record_success b = success_in b.state b

-- The `match` of `record_failure`, after the counter and the time are written.
failure_in : CircuitState → CircuitBreaker → CircuitBreaker
failure_in closed b =
    if leb b.failure_threshold b.failure_count then record b { state = open_circuit } else b
failure_in half_open b = record b { state = open_circuit; success_count = 0 }
failure_in open_circuit b = b

unfoldable pub record_failure : ℕ → CircuitBreaker → CircuitBreaker
unfolding failure_in
record_failure now b =
    failure_in b.state
      (record b { failure_count = u64 (b.failure_count + 1); last_failure_time = some now })

unfoldable pub get_state : CircuitBreaker → CircuitState
get_state b = b.state

unfoldable pub reset : CircuitBreaker → CircuitBreaker
reset b = record b {
  state = closed;
  failure_count = 0;
  success_count = 0;
  last_failure_time = none;
}

unfoldable pub get_stats : CircuitBreaker → CircuitBreakerStats
get_stats b = record {
  state = b.state;
  failure_count = b.failure_count;
  success_count = b.success_count;
}

-- One call of a method, with the clock's reading where the method reads it.
pub data Call : Type 0 where
  available_call : ℕ → Call
  success_call : Call
  failure_call : ℕ → Call
  reset_call : Call

unfoldable pub step : CircuitBreaker → Call → CircuitBreaker
unfolding is_available record_success record_failure reset
step b (available_call now) = (is_available now b).0
step b success_call = record_success b
step b (failure_call now) = record_failure now b
step b reset_call = reset b

-- The calls of all tasks, in the order in which they take the lock.
unfoldable pub run : CircuitBreaker → List Call → CircuitBreaker
run b [] = b
run b (c ∷ cs) = run (step b c) cs
