-- ===== src/Examples/Command.antt =====
-- A command at concrete outcomes: it fails, is not found, and then succeeds or fails again.
use analytics_hub.Prelude.{ℕ, ◌≡◌, refl, String, some, false, [], ◌∷◌, Outcome, ok, err}
use analytics_hub.Prelude.Int.{pos}
use analytics_hub.Command.{Output, exited, with_retries, execute_command}
use analytics_hub.Command.Attempts.{execute_gives_up}

abbrev exit_1 : Output
exit_1 = record { success = false; code = some (pos 1); stdout = []; stderr = 33 ∷ [] }

abbrev always_1 : ℕ → Outcome Output String
always_1 attempt = ok exit_1

execute_gives_up_example :
    execute_command (with_retries 2 50) always_1
    ≡ record { result = err (exited (some (pos 1)) (33 ∷ [])); runs = 2; delays = 50 ∷ [] }
execute_gives_up_example = execute_gives_up (with_retries 2 50) always_1 1 refl (λ i l. refl)
