-- ===== src/Command/Attempts.antt =====
-- How often `execute` of src/common/executor.rs runs the program.
use analytics_hub.Prelude.{
  ℕ, zero, suc, ◌+◌, ◌≤◌, ◌<◌, ◌≡◌, refl, ap, subst, ◌∙◌, Option, none, some, Bool, true, false,
  List, [], ◌∷◌, ltb, lt→ltb, Outcome, ok, err, arith,
}
use analytics_hub.Command.{
  CommandExecutor, Output, CommandError, exited, not_executed, Executed, last_or_generic, try_again,
  match_output, execute_loop, execute_command,
}

abbrev pub replicate : ℕ → ℕ → List ℕ
replicate zero d = []
replicate (suc n) d = d ∷ replicate n d

module _ {E : Type 0} where
  abbrev pub succeeded : Outcome Output E → Bool
  succeeded (ok output) = output.success
  succeeded (err e) = false

  -- The error that stands for a run that did not succeed.
  abbrev pub error_of : Outcome Output E → CommandError E
  error_of (ok output) = exited output.code output.stderr
  error_of (err e) = not_executed e

  -- The attempts before the n-th after the first one do not succeed.
  abbrev pub NoSuccess : (ℕ → Outcome Output E) → ℕ → ℕ → Type 0
  NoSuccess run first n = (i : ℕ) → i < n → succeeded (run (first + i)) ≡ false

  first_fails :
      (run : ℕ → Outcome Output E) (first n : ℕ)
      → NoSuccess run first (suc n)
      → succeeded (run first) ≡ false
  first_fails run first n h =
      subst (λ k. succeeded (run k) ≡ false) (omega arith) (h 0 (omega arith))

  later_fail :
      (run : ℕ → Outcome Output E) (first n : ℕ)
      → NoSuccess run first (suc n)
      → NoSuccess run (first + 1) n
  later_fail run first n h i l =
      subst (λ k. succeeded (run k) ≡ false) (omega arith) (h (suc i) (omega (arith, l)))

module _ {E : Type 0} (x : CommandExecutor) where
  match_failed :
      (o : Outcome Output E) (attempt : ℕ) (later : Option (CommandError E) → Executed E)
      → succeeded o ≡ false
      → match_output x o attempt later ≡ try_again x attempt (later (some (error_of o)))
  unfolding match_output
  match_failed (ok output) attempt later h = rw h refl
  match_failed (err e) attempt later h = refl

  match_succeeded :
      (o : Outcome Output E) (output : Output) (attempt : ℕ)
      (later : Option (CommandError E) → Executed E)
      → o ≡ ok output
      → output.success ≡ true
      → match_output x o attempt later ≡ record { result = ok output; runs = 1; delays = [] }
  unfolding match_output
  match_succeeded o output attempt later e h = rw e (rw h refl)

  delayed :
      (attempt n runs : ℕ) (r : Outcome Output (CommandError E))
      → attempt < x.max_retries
      → try_again x attempt (record { result = r; runs = runs; delays = replicate n x.retry_delay })
        ≡ record { result = r; runs = suc runs; delays = replicate (suc n) x.retry_delay }
  unfolding try_again
  delayed attempt n runs r l = rw (lt→ltb attempt x.max_retries l) refl

  loop_succeeds :
      (run : ℕ → Outcome Output E) (n turns attempt : ℕ) (last : Option (CommandError E))
      (output : Output)
      → attempt + turns ≡ x.max_retries + 1
      → n < turns
      → NoSuccess run attempt n
      → run (attempt + n) ≡ ok output
      → output.success ≡ true
      → execute_loop x run turns attempt last
        ≡ record { result = ok output; runs = suc n; delays = replicate n x.retry_delay }
  unfolding execute_loop
  loop_succeeds run n zero attempt last output total l fails e h = absurd (omega (arith, l))
  loop_succeeds run zero (suc turns) attempt last output total l fails e h =
      let now : run attempt ≡ ok output = subst (λ k. run k ≡ ok output) (omega arith) e in
      match_succeeded (run attempt) output attempt _ now h
  loop_succeeds run (suc n) (suc turns) attempt last output total l fails e h =
      let at : run (attempt + 1 + n) ≡ ok output = subst (λ k. run k ≡ ok output) (omega arith) e in
      match_failed (run attempt) attempt _ (first_fails run attempt n fails)
      ∙ ap (try_again x attempt) (
          loop_succeeds run n turns (attempt + 1) _ output (omega (arith, total)) (omega (arith, l))
            (later_fail run attempt n fails) at h)
      ∙ delayed attempt n (suc n) (ok output) (omega (arith, total, l))

  not_delayed :
      (attempt runs : ℕ) (r : Outcome Output (CommandError E))
      → x.max_retries ≤ attempt
      → try_again x attempt (record { result = r; runs = runs; delays = [] })
        ≡ record { result = r; runs = suc runs; delays = [] }
  unfolding try_again
  not_delayed attempt runs r l =
      let last : ltb attempt x.max_retries ≡ false = ground arith in rw last refl

  loop_gives_up :
      (run : ℕ → Outcome Output E) (n attempt : ℕ) (last : Option (CommandError E))
      → attempt + n ≡ x.max_retries
      → NoSuccess run attempt (suc n)
      → execute_loop x run (suc n) attempt last ≡ record {
        result = err (error_of (run x.max_retries));
        runs = suc n;
        delays = replicate n x.retry_delay;
      }
  unfolding execute_loop last_or_generic
  loop_gives_up run zero attempt last total fails =
      let at : attempt ≡ x.max_retries = omega (arith, total) in
      match_failed (run attempt) attempt _ (first_fails run attempt 0 fails)
      ∙ not_delayed attempt 0 (err (error_of (run attempt))) (omega (arith, total))
      ∙ ap (λ k. record { result = err (error_of (run k)); runs = 1; delays = [] }) at
  loop_gives_up run (suc n) attempt last total fails =
      match_failed (run attempt) attempt _ (first_fails run attempt (suc n) fails)
      ∙ ap (try_again x attempt) (
          loop_gives_up run n (attempt + 1) (some (error_of (run attempt))) (omega (arith, total))
            (later_fail run attempt (suc n) fails))
      ∙ delayed attempt n (suc n) _ (omega (arith, total))

  -- A command whose runs before the one after n fail, and whose next one succeeds within the
  -- attempts allowed, returns the output of that run, after n + 1 runs with a delay between each
  -- two.
  pub execute_until_success :
      (run : ℕ → Outcome Output E) (n : ℕ) (output : Output)
      → n < x.max_retries
      → NoSuccess run 1 n
      → run (1 + n) ≡ ok output
      → output.success ≡ true
      → execute_command x run
        ≡ record { result = ok output; runs = suc n; delays = replicate n x.retry_delay }
  unfolding execute_command
  execute_until_success run n output l fails e h =
      loop_succeeds run n x.max_retries 1 none output (omega arith) l fails e h

  -- A command none of whose runs succeeds within the attempts allowed, of which there is one at
  -- least, is run that often, retries being counted with the first run, with a delay between each
  -- two runs and none after the last, and returns the error of the last run.
  pub execute_gives_up :
      (run : ℕ → Outcome Output E) (n : ℕ)
      → x.max_retries ≡ suc n
      → NoSuccess run 1 (suc n)
      → execute_command x run ≡ record {
        result = err (error_of (run (suc n)));
        runs = suc n;
        delays = replicate n x.retry_delay;
      }
  unfolding execute_command
  execute_gives_up run n most fails =
      ap (λ k. execute_loop x run k 1 none) most
      ∙ loop_gives_up run n 1 none (omega (arith, most)) fails
      ∙ ap
          (λ k. record {
            result = err (error_of (run k));
            runs = suc n;
            delays = replicate n x.retry_delay;
          })
          most
