-- ===== src/Examples/Resilience.antt =====
-- The circuit breaker and the retry loop at concrete inputs.
use analytics_hub.Prelude.{
  ℕ, zero, suc, ◌+◌, ◌-◌, ◌≤◌, ◌<◌, ◌≡◌, refl, none, some, true, false, not, List, [], ◌∷◌, Outcome,
  ok, err, is_ok, all, arith, u64_max, inl,
}
use analytics_hub.Resilience.Breaker.{
  CircuitBreaker, closed, open_circuit, half_open, Call, available_call, success_call, failure_call,
  run, is_available,
}
use analytics_hub.Resilience.Breaker.Invariant.{IsValid, run-IsValid}
use analytics_hub.Resilience.Breaker.Opening.{answers, blocks_until_timeout}
use analytics_hub.Resilience.Breaker.Recovery.{successes, recovers}
use analytics_hub.Resilience.Retry.{RetryPolicy, Execution, execute}
use analytics_hub.Resilience.Retry.Attempts.{backoff, execute_runs, execute_terminates}
use analytics_hub.Examples.Data.{hundredths}

abbrev fresh : CircuitBreaker
fresh = record {
  state = closed;
  failure_count = 0;
  success_count = 0;
  last_failure_time = none;
  failure_threshold = 3;
  timeout = 60;
}

-- Opened by a failure at time 100.
abbrev opened : CircuitBreaker
opened = record fresh { state = open_circuit; failure_count = 3; last_failure_time = some 100 }

abbrev calls : List Call
calls = failure_call 1 ∷ success_call ∷ available_call 5 ∷ failure_call 7 ∷ []

fresh-IsValid : IsValid fresh
fresh-IsValid = ground arith

run-IsValid_example : IsValid (run fresh calls)
run-IsValid_example = run-IsValid fresh calls fresh-IsValid

abbrev early : List Call
early = available_call 150 ∷ failure_call 155 ∷ success_call ∷ available_call 210 ∷ []

blocks_until_timeout_example :
    (all not (answers opened early) ≡ true) × ((run opened early).state ≡ open_circuit)
blocks_until_timeout_example =
    blocks_until_timeout opened 100 early refl refl (omega arith, (omega arith, tt))

recovers_example :
    let b' = (is_available 200 opened).0 in
    ((is_available 200 opened).1 ≡ true)
    × ((successes 1 b').state ≡ half_open)
    × ((successes 2 b').state ≡ half_open)
    × (successes 3 b' ≡ record opened {
      state = closed;
      failure_count = 0;
      success_count = 0;
      last_failure_time = none;
    })
recovers_example = recovers opened 100 200 refl refl (omega arith)

-- Three attempts, and delays that double.
abbrev policy : RetryPolicy ℕ
policy = record { max_attempts = 3; initial_delay = 100; max_delay = 30000; multiplier = 200 }

fits : policy.max_attempts ≤ u64_max
fits = omega arith

-- Succeeds at the second call.
abbrev flaky : ℕ → Outcome ℕ ℕ
flaky zero = err 503
flaky (suc k) = ok k

flaky_fails : (j : ℕ) → j < 1 → is_ok (flaky j) ≡ false
flaky_fails zero l = refl
flaky_fails (suc j) l = absurd (omega arith)

execute_runs_example :
    execute hundredths policy flaky
    ≡ some (record { result = flaky 1; attempts = 1 + 1; delays = backoff hundredths policy 1 100 })
execute_runs_example =
    execute_runs hundredths policy fits flaky 1 (omega arith) flaky_fails (inl refl)

execute_terminates_example :
    (k : ℕ) × (k + 1 ≤ suc (policy.max_attempts - 1))
    × (x : Execution ℕ ℕ) × (execute hundredths policy flaky ≡ some x)
    × (x.result ≡ flaky k)
    × (x.attempts ≡ k + 1)
execute_terminates_example = execute_terminates hundredths policy fits flaky

-- Five uses of a service that is down, within one timeout.
abbrev uses : List (ℕ × ℕ)
uses = (1, 2) ∷ (3, 4) ∷ (5, 6) ∷ (7, 8) ∷ (9, 10) ∷ []
