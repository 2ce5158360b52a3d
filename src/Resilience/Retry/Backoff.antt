-- ===== src/Resilience/Retry/Backoff.antt =====
-- The delays of src/resilience/retry.rs.
use Prim.Native.Nat.{min, max}
use native.Mathlib.Nat.{pow-succ', one-le-pow}
use analytics_hub.Prelude.{
  ℕ, zero, suc, ◌*◌, ◌^◌, ◌≤◌, ◌≡◌, ap, leb, leb→gt, Bool-cases, inl, inr, ◌∙◌, List, [], ◌∷◌,
  arith, some, get_elem?, ◌<◌,
}
use analytics_hub.Prelude.Float.{FloatOps}
use analytics_hub.Resilience.Retry.{RetryPolicy, next_delay}
use analytics_hub.Resilience.Retry.Attempts.{backoff}

abbrev pub AllAtMost : ℕ → List ℕ → Type 0
AllAtMost bound [] = Unit
AllAtMost bound (d ∷ ds) = (d ≤ bound) × AllAtMost bound ds

min_one : (d m : ℕ) → d ≤ m → d ≡ min (d * 2 ^ 0) m
min_one d m h = omega arith

past_cap : (d m x : ℕ) → 1 ≤ x → m < 2 * d → min (m * x) m ≡ min (d * (2 * x)) m
past_cap d m x h l =
    let lower : m * 1 ≤ m * x = grind arith in
    let upper : 2 * d * 1 ≤ 2 * d * x = grind arith in omega arith

-- Doubling after the cap is doubling before it.
min_scaled : (d m x : ℕ) → 1 ≤ x → min (min (2 * d) m * x) m ≡ min (d * (2 * x)) m
min_scaled d m x h = elim (Bool-cases (leb (2 * d) m)) [
  | inl small ↦ let e : min (2 * d) m ≡ 2 * d = ground arith in rw e (omega arith)
  | inr large ↦
      let e : min (2 * d) m ≡ m = ground arith in rw e (past_cap d m x h (leb→gt (2 * d) m large))
]

module _ (f : FloatOps) (p : RetryPolicy f.F) where
  next_delay-le : (delay : ℕ) → next_delay f p delay ≤ p.max_delay
  unfolding next_delay
  next_delay-le delay = omega arith

  capped :
      (n delay bound : ℕ)
      → delay ≤ bound
      → p.max_delay ≤ bound
      → AllAtMost bound (backoff f p n delay)
  capped zero delay bound h m = tt
  capped (suc n) delay bound h m =
      (h, capped n (next_delay f p delay) bound (omega (arith, next_delay-le delay)) m)

  -- No delay passes the cap, whatever the multiplier does, but that the first delay is the initial
  -- one, which is not capped.
  pub backoff_capped :
      (n : ℕ) → AllAtMost (max p.initial_delay p.max_delay) (backoff f p n p.initial_delay)
  backoff_capped n = capped n p.initial_delay _ (omega arith) (omega arith)

  -- The `j`-th delay of a policy that doubles.
  module _
      (doubles : (d : ℕ)
        → d ≤ p.max_delay
        → f.to_nat (f.mul (f.of_nat d) p.multiplier) ≡ 2 * d) where
    next_delay_doubles :
        (delay : ℕ) → delay ≤ p.max_delay → next_delay f p delay ≡ min (2 * delay) p.max_delay
    unfolding next_delay
    next_delay_doubles delay h = rw (doubles delay h)

    doubled :
        (n delay j : ℕ)
        → delay ≤ p.max_delay
        → j < n
        → get_elem? (backoff f p n delay) j ≡ some (min (delay * 2 ^ j) p.max_delay)
    doubled zero delay j h l = absurd (omega arith)
    doubled (suc n) delay zero h l = ap some (min_one delay p.max_delay h)
    doubled (suc n) delay (suc j) h l =
        rw
          (
            doubled n (next_delay f p delay) j (next_delay-le delay) (omega arith),
            next_delay_doubles delay h,
          )
          (ap some (
            min_scaled delay p.max_delay (2 ^ j) (one-le-pow j 2 (omega arith))
            ∙ rw (pow-succ' 2 j)))

    -- A policy that doubles, as the default does, backs off exponentially up to the cap: from an
    -- initial delay within the cap, the `j`-th delay is the initial one times `2 ^ j`, or the cap
    -- where that is less.
    pub backoff_doubles :
        (n j : ℕ)
        → p.initial_delay ≤ p.max_delay
        → j < n
        → get_elem? (backoff f p n p.initial_delay) j
          ≡ some (min (p.initial_delay * 2 ^ j) p.max_delay)
    backoff_doubles n j h l = doubled n p.initial_delay j h l
