-- ===== src/Resilience/Breaker/Opening.antt =====
-- When a circuit breaker (src/resilience/circuit_breaker.rs) opens, and how long it blocks.
use analytics_hub.Prelude.{
  ℕ, ◌+◌, ◌-◌, ◌≤◌, ◌≡◌, refl, Bool, true, false, some, List, [], ◌∷◌, arith, leb, if◌then◌else◌,
  length, Bool-cases, inl, inr, not, all,
}
use analytics_hub.Resilience.Breaker.{
  CircuitBreaker, closed, open_circuit, Call, available_call, success_call, failure_call,
  reset_call, is_available, record_success, record_failure, step, run,
}
use analytics_hub.Resilience.Breaker.Invariant.{IsValid, step-IsValid}

-- `record_failure` once for each instant.
abbrev pub failures : List ℕ → CircuitBreaker → CircuitBreaker
failures [] b = b
failures (t ∷ ts) b = failures ts (record_failure t b)

module _ (b : CircuitBreaker) (t : ℕ) where
  pub is_available_closed : b.state ≡ closed → is_available t b ≡ (b, true)
  unfolding is_available
  is_available_closed c = ground arith

  pub record_failure_stamps :
      ((record_failure t b).last_failure_time ≡ some t) × ((record_failure t b).timeout ≡ b.timeout)
  unfolding record_failure
  record_failure_stamps = (ground arith, ground arith)

  pub record_failure-IsValid : IsValid b → IsValid (record_failure t b)
  record_failure-IsValid v = unfold step in step-IsValid b (failure_call t) v

  pub record_failure_open : b.state ≡ open_circuit → (record_failure t b).state ≡ open_circuit
  unfolding record_failure
  record_failure_open h = ground arith

  pub record_failure_opens :
      IsValid b
      → b.state ≡ closed
      → leb b.failure_threshold (b.failure_count + 1) ≡ true
      → (record_failure t b).state ≡ open_circuit
  unfolding record_failure
  record_failure_opens v c h = ground arith

  pub record_failure_counts :
      IsValid b
      → b.state ≡ closed
      → leb b.failure_threshold (b.failure_count + 1) ≡ false
      → ((record_failure t b).state ≡ closed)
        × ((record_failure t b).failure_count ≡ b.failure_count + 1)
        × ((record_failure t b).failure_threshold ≡ b.failure_threshold)
  unfolding record_failure
  record_failure_counts v c h = (ground arith, ground arith, ground arith)

stays_open :
    (b : CircuitBreaker) (ts : List ℕ)
    → b.state ≡ open_circuit
    → (failures ts b).state ≡ open_circuit
stays_open b [] h = h
stays_open b (t ∷ ts) h = stays_open (record_failure t b) ts (record_failure_open b t h)

-- Failures in a row on a valid closed breaker: it is open afterwards if the failures counted before
-- and these together reach the threshold, and closed if they do not. At least one is recorded.
pub opens_at_threshold :
    (b : CircuitBreaker) (t : ℕ) (ts : List ℕ)
    → IsValid b
    → b.state ≡ closed
    → (failures (t ∷ ts) b).state ≡ (
        if leb b.failure_threshold (b.failure_count + length (t ∷ ts))
        then open_circuit
        else closed)
opens_at_threshold b t [] v c = elim (Bool-cases (leb b.failure_threshold (b.failure_count + 1))) [
  | inl h ↦ rw h (record_failure_opens b t v c h)
  | inr h ↦ rw h (record_failure_counts b t v c h).0
]
opens_at_threshold b t (t' ∷ ts) v c =
    elim (Bool-cases (leb b.failure_threshold (b.failure_count + 1))) [
      | inl h ↦
          let past : leb b.failure_threshold (b.failure_count + length (t ∷ t' ∷ ts)) ≡ true =
            ground arith in
          rw past (stays_open (record_failure t b) (t' ∷ ts) (record_failure_opens b t v c h))
      | inr h ↦
          let (still, counted, same) = record_failure_counts b t v c h in
          ground (
            arith,
            opens_at_threshold (record_failure t b) t' ts (record_failure-IsValid b t v) still,
            counted,
            same,
          )
    ]

-- The calls that tasks make on an open breaker before its timeout is over: no reset, and every
-- reading of the clock at most `timeout` after the last failure, `last`, recorded so far.
abbrev pub IsEarly : ℕ → ℕ → List Call → Type 0
IsEarly timeout last [] = Unit
IsEarly timeout last (available_call now ∷ cs) = (now - last ≤ timeout) × IsEarly timeout last cs
IsEarly timeout last (success_call ∷ cs) = IsEarly timeout last cs
IsEarly timeout last (failure_call now ∷ cs) = IsEarly timeout now cs
IsEarly timeout last (reset_call ∷ cs) = ⊥

-- The answers of the `is_available` calls in a run.
abbrev pub answers : CircuitBreaker → List Call → List Bool
answers b [] = []
answers b (available_call now ∷ cs) = (is_available now b).1 ∷ answers (is_available now b).0 cs
answers b (c ∷ cs) = answers (step b c) cs

module _ (b : CircuitBreaker) (last now : ℕ) (o : b.state ≡ open_circuit) where
  pub is_available_early :
      b.last_failure_time ≡ some last → now - last ≤ b.timeout → is_available now b ≡ (b, false)
  unfolding is_available
  is_available_early l e = ground arith

step_available :
    (b : CircuitBreaker) (now : ℕ) → step b (available_call now) ≡ (is_available now b).0
unfolding step
step_available b now = refl

step_failure : (b : CircuitBreaker) (now : ℕ) → step b (failure_call now) ≡ record_failure now b
unfolding step
step_failure b now = refl

step_success : (b : CircuitBreaker) → b.state ≡ open_circuit → step b success_call ≡ b
unfolding step record_success
step_success b o = ground arith

run_cons : (b : CircuitBreaker) (c : Call) (cs : List Call) → run b (c ∷ cs) ≡ run (step b c) cs
unfolding run
run_cons b c cs = refl

-- Before the timeout is over no task is let through an open breaker, whatever calls are made but a
-- reset: every `is_available` answers false, and the breaker is open at the end. A failure recorded
-- meanwhile starts the timeout anew.
pub blocks_until_timeout :
    (b : CircuitBreaker) (last : ℕ) (cs : List Call)
    → b.state ≡ open_circuit
    → b.last_failure_time ≡ some last
    → IsEarly b.timeout last cs
    → (all not (answers b cs) ≡ true) × ((run b cs).state ≡ open_circuit)
blocks_until_timeout b last [] o l e = (refl, unfold run in o)
blocks_until_timeout b last (available_call now ∷ cs) o l e =
    rw (run_cons, step_available, is_available_early b last now o l e.0)
      (blocks_until_timeout b last cs o l e.1)
blocks_until_timeout b last (success_call ∷ cs) o l e =
    rw (run_cons, step_success b o) (blocks_until_timeout b last cs o l e)
blocks_until_timeout b last (failure_call now ∷ cs) o l e =
    let (at_now, same) = record_failure_stamps b now in
    rw (run_cons, step_failure)
      (blocks_until_timeout (record_failure now b) now cs (record_failure_open b now o) at_now
        (rw same e))
blocks_until_timeout b last (reset_call ∷ cs) o l e = elim e [ ]
