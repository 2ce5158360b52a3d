-- ===== src/Command.antt =====
-- src/common/executor.rs: running a program until it succeeds. What a run of the program gives is
-- a function of the attempt; the delays are the milliseconds that the loop sleeps for.
pub mod Attempts
use analytics_hub.Prelude.{
  ℕ, zero, suc, ◌+◌, Option, none, some, Bool, true, false, List, [], ◌∷◌, ltb, if◌then◌else◌,
  Outcome, ok, err,
}
use analytics_hub.Prelude.Int.{ℤ}

pub record CommandExecutor : Type 0 where
  pub max_retries : ℕ
  pub retry_delay : ℕ

-- `CommandExecutor::new`
abbrev pub new_executor : CommandExecutor
new_executor = record { max_retries = 3; retry_delay = 1000 }

abbrev pub with_retries : ℕ → ℕ → CommandExecutor
with_retries max_retries retry_delay_ms = record {
  max_retries = max_retries;
  retry_delay = retry_delay_ms;
}

-- `std::process::Output`, with what its status tells.
pub record Output : Type 0 where
  pub success : Bool
  pub code : Option ℤ
  pub stdout : List ℕ
  pub stderr : List ℕ

-- The errors that `execute` and `execute_stdout` return, by their messages.
pub data CommandError (E : Type 0) : Type 0 where
  exited : Option ℤ → List ℕ → CommandError E
  not_executed : E → CommandError E
  after_retries : CommandError E
  not_utf8 : CommandError E

-- What `execute` returns, with the number of runs and the delays between them.
pub record Executed (E : Type 0) : Type 0 where
  pub result : Outcome Output (CommandError E)
  pub runs : ℕ
  pub delays : List ℕ

module _ {E : Type 0} where
  unfoldable pub last_or_generic : Option (CommandError E) → CommandError E
  last_or_generic none = after_retries
  last_or_generic (some e) = e

module _ {E : Type 0} (x : CommandExecutor) where
  -- What one attempt adds to the attempts after it: a run, and the delay where it is not the last.
  unfoldable pub try_again : ℕ → Executed E → Executed E
  try_again attempt later = record {
    result = later.result;
    runs = suc later.runs;
    delays = if ltb attempt x.max_retries then x.retry_delay ∷ later.delays else later.delays;
  }

  -- The `match` on `cmd.output()`.
  unfoldable pub match_output :
      Outcome Output E → ℕ → (Option (CommandError E) → Executed E) → Executed E
  match_output (ok output) attempt later =
      if output.success
      then record { result = ok output; runs = 1; delays = [] }
      else try_again attempt (later (some (exited output.code output.stderr)))
  match_output (err e) attempt later = try_again attempt (later (some (not_executed e)))

  unfoldable pub execute_loop :
      (ℕ → Outcome Output E) → ℕ → ℕ → Option (CommandError E) → Executed E
  execute_loop run zero attempt last_error = record {
    result = err (last_or_generic last_error);
    runs = 0;
    delays = [];
  }
  execute_loop run (suc turns) attempt last_error =
      match_output (run attempt) attempt (execute_loop run turns (attempt + 1))

  -- The turns are the attempts of `1..=self.max_retries`.
  unfoldable pub execute_command : (ℕ → Outcome Output E) → Executed E
  execute_command run = execute_loop run x.max_retries 1 none

-- `String::from_utf8` is `from_utf8`, none for its error.
module _ {E T : Type 0} (from_utf8 : List ℕ → Option T) where
  unfoldable pub text_or_error : Option T → Outcome T (CommandError E)
  text_or_error none = err not_utf8
  text_or_error (some text) = ok text

  unfoldable pub stdout_of : Outcome Output (CommandError E) → Outcome T (CommandError E)
  stdout_of (ok output) = text_or_error (from_utf8 output.stdout)
  stdout_of (err e) = err e

  unfoldable pub execute_stdout :
      CommandExecutor → (ℕ → Outcome Output E) → Outcome T (CommandError E)
  execute_stdout x run = stdout_of (execute_command x run).result
