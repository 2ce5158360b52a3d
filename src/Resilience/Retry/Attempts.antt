-- ===== src/Resilience/Retry/Attempts.antt =====
-- How often `execute` of src/resilience/retry.rs calls its operation, and what it returns.
use mathlib.Core.Option
use analytics_hub.Prelude.{
  ℕ, zero, suc, ◌+◌, ◌-◌, ◌≤◌, ◌<◌, ◌≡◌, refl, ◌⊎◌, inl, inr, true, false, Option, some, List, [],
  ◌∷◌, arith, leb, u64, u64_max, Outcome, ok, err, is_ok, Bool-cases, ltb, ltb→lt,
}
use analytics_hub.Prelude.Float.{FloatOps}
use analytics_hub.Resilience.Retry.{
  RetryPolicy, Execution, next_delay, after_attempt, retry_loop, execute, slept,
}

module _ (f : FloatOps) (p : RetryPolicy f.F) where
  -- The delays that `n` failures in a row cost, the first of them `delay`.
  abbrev pub backoff : ℕ → ℕ → List ℕ
  backoff zero delay = []
  backoff (suc n) delay = delay ∷ backoff n (next_delay f p delay)

module _ (f : FloatOps) (p : RetryPolicy f.F) {T E : Type 0} where
  after_attempt_stop :
      (r : Outcome T E) (attempts delay : ℕ) (rest : Option (Execution T E))
      → (is_ok r ≡ true) ⊎ (leb p.max_attempts attempts ≡ true)
      → after_attempt f p r attempts delay rest
        ≡ some (record { result = r; attempts = attempts; delays = [] })
  unfolding after_attempt
  after_attempt_stop (ok t) attempts delay rest h = refl
  after_attempt_stop (err e) attempts delay rest h = ground arith

  after_attempt_again :
      (r : Outcome T E) (attempts delay : ℕ) (rest : Option (Execution T E))
      → is_ok r ≡ false
      → leb p.max_attempts attempts ≡ false
      → after_attempt f p r attempts delay rest ≡ Option.map (slept f p delay) rest
  unfolding after_attempt
  after_attempt_again (ok t) attempts delay rest h k = cc
  after_attempt_again (err e) attempts delay rest h k = rw k

module _ (f : FloatOps) (p : RetryPolicy f.F) (fits : p.max_attempts ≤ u64_max) {T E : Type 0}
    (operation : ℕ → Outcome T E) where
  -- The attempt after `k` others is the last: it succeeds, or no more are allowed.
  abbrev pub IsLast : ℕ → Type 0
  IsLast k = (is_ok (operation k) ≡ true) ⊎ (k ≡ p.max_attempts - 1)

  loop_runs :
      (fuel n a delay : ℕ)
      → n < fuel
      → a + n ≤ p.max_attempts - 1
      → ((j : ℕ) → a ≤ j → j < a + n → is_ok (operation j) ≡ false)
      → IsLast (a + n)
      → retry_loop f p operation fuel a delay
        ≡ some (record {
          result = operation (a + n);
          attempts = a + n + 1;
          delays = backoff f p n delay;
        })
  unfolding retry_loop
  loop_runs zero n a delay h within fails l = absurd (omega arith)
  loop_runs (suc fuel) zero a delay h within fails l =
      let z : a + 0 ≡ a = omega arith in
      let e : u64 (a + 1) ≡ a + 1 = omega arith in
      rw (z, e) (after_attempt_stop f p (operation a) (a + 1) delay _ (ground (arith, z)))
  loop_runs (suc fuel) (suc n) a delay h within fails l =
      let e : u64 (a + 1) ≡ a + 1 = omega arith in
      let z : a + 1 + n ≡ a + suc n = omega arith in
      rw
        (
          e,
          after_attempt_again f p (operation a) (a + 1) delay _
              (fails a (omega arith) (omega arith)) (ground arith),
          loop_runs fuel n (a + 1) (next_delay f p delay) (omega arith) (omega arith)
              (λ j from below. fails j (omega arith) (omega arith)) (rw z l),
          z,
        )
        refl

  fails_through :
      (a : ℕ)
      → ((j : ℕ) → j < a → is_ok (operation j) ≡ false)
      → is_ok (operation a) ≡ false
      → (j : ℕ) → j < a + 1
      → is_ok (operation j) ≡ false
  fails_through a fails h j below = elim (Bool-cases (ltb j a)) [
    | inl lt ↦ fails j (ltb→lt j a lt)
    | inr ge ↦ let e : j ≡ a = ground arith in rw e h
  ]

  -- `execute` calls the operation until it succeeds or as often as the policy allows, at least
  -- once: if the calls before number `k` all fail, and call `k` succeeds or is the last allowed,
  -- the loop ends, the result is that of call `k`, after `k + 1` calls, and it has slept for the
  -- `k` delays of the backoff.
  pub execute_runs :
      (k : ℕ)
      → k ≤ p.max_attempts - 1
      → ((j : ℕ) → j < k → is_ok (operation j) ≡ false)
      → IsLast k
      → execute f p operation
        ≡ some (record {
          result = operation k;
          attempts = k + 1;
          delays = backoff f p k p.initial_delay;
        })
  unfolding execute
  execute_runs k within fails l =
      let z : 0 + k ≡ k = omega arith in
      rw z at (
        loop_runs (p.max_attempts + 1) k 0 p.initial_delay (omega arith) (omega arith)
          (λ j from below. fails j (omega arith)) (rw z l))

  IsLast-from :
      (n a : ℕ)
      → a + n ≡ p.max_attempts - 1
      → ((j : ℕ) → j < a → is_ok (operation j) ≡ false)
      → (k : ℕ) × (k ≤ p.max_attempts - 1)
        × ((j : ℕ) → j < k → is_ok (operation j) ≡ false)
        × IsLast k
  IsLast-from zero a e fails = (a, omega arith, fails, inr (omega arith))
  IsLast-from (suc n) a e fails = elim (Bool-cases (is_ok (operation a))) [
    | inl h ↦ (a, omega arith, fails, inl h)
    | inr h ↦ IsLast-from n (a + 1) (omega arith) (fails_through a fails h)
  ]

  -- The loop always ends, within the fuel that `execute` gives it: it returns the outcome of one of
  -- its calls, which is the last one made, and it makes at least one call and at most as many as
  -- the policy allows, or one where that is none.
  pub execute_terminates :
      (k : ℕ) × (k + 1 ≤ suc (p.max_attempts - 1))
      × (x : Execution T E) × (execute f p operation ≡ some x)
      × (x.result ≡ operation k)
      × (x.attempts ≡ k + 1)
  execute_terminates =
      let (k, within, fails, l) =
        IsLast-from (p.max_attempts - 1) 0 (omega arith) (λ j h. absurd (omega arith)) in
      (k, omega arith, _, execute_runs k within fails l, refl, refl)
