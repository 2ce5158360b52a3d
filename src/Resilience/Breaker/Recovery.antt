-- ===== src/Resilience/Breaker/Recovery.antt =====
-- How a circuit breaker (src/resilience/circuit_breaker.rs) closes again.
use analytics_hub.Prelude.{ℕ, zero, suc, ◌+◌, ◌-◌, ◌<◌, ◌≡◌, refl, true, some, none, arith}
use analytics_hub.Resilience.Breaker.{
  CircuitBreaker, closed, open_circuit, half_open, is_available, record_success, record_failure,
}
use analytics_hub.Resilience.Breaker.Invariant.{IsValid}

-- `record_success` a number of times.
abbrev pub successes : ℕ → CircuitBreaker → CircuitBreaker
successes zero b = b
successes (suc n) b = successes n (record_success b)

-- The breaker of an open one that lets a task through.
half_opened : CircuitBreaker → CircuitBreaker
half_opened b = record b { state = half_open; failure_count = 0; success_count = 0 }

module _ (b : CircuitBreaker) where
  is_available_late :
      (last now : ℕ)
      → b.state ≡ open_circuit
      → b.last_failure_time ≡ some last
      → b.timeout < now - last
      → is_available now b ≡ (half_opened b, true)
  unfolding is_available half_opened
  is_available_late last now o l h = ground arith

  record_success_probe :
      b.state ≡ half_open
      → b.success_count < 2
      → record_success b ≡ record b { success_count = b.success_count + 1 }
  unfolding record_success
  record_success_probe s h = ground arith

  record_success_last :
      b.state ≡ half_open
      → b.success_count ≡ 2
      → record_success b ≡ record b {
        state = closed;
        failure_count = 0;
        success_count = 0;
        last_failure_time = none;
      }
  unfolding record_success
  record_success_last s h = ground arith

-- Once the timeout is over, an open breaker lets the next task through and is half open; three
-- successes then close it with all counters and the failure time cleared, and fewer do not.
pub recovers :
    (b : CircuitBreaker) (last now : ℕ)
    → b.state ≡ open_circuit
    → b.last_failure_time ≡ some last
    → b.timeout < now - last
    → let b' = (is_available now b).0 in
      ((is_available now b).1 ≡ true)
      × ((successes 1 b').state ≡ half_open)
      × ((successes 2 b').state ≡ half_open)
      × (successes 3 b' ≡ record b {
        state = closed;
        failure_count = 0;
        success_count = 0;
        last_failure_time = none;
      })
recovers b last now o l h =
    rw (is_available_late b last now o l h)
      (unfold half_opened record_success in (refl, refl, refl, refl))

-- A half-open breaker that sees a failure is open again, whatever successes came before: its
-- timeout counts from that failure, and the successes are forgotten.
pub probe_failure :
    (b : CircuitBreaker) (n now : ℕ)
    → IsValid b
    → b.state ≡ half_open
    → b.success_count + n < 3
    → let b' = record_failure now (successes n b) in
      (b'.state ≡ open_circuit) × (b'.last_failure_time ≡ some now) × (b'.success_count ≡ 0)
probe_failure b zero now v s h = unfold record_failure in (ground arith, ground arith, ground arith)
probe_failure b (suc n) now v s h = rw (record_success_probe b s (omega arith)) (
    probe_failure (record b { success_count = b.success_count + 1 }) n now (ground arith) s
      (omega arith))
