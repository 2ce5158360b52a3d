-- ===== src/Adapters/Gate.antt =====
-- What the adapters of src/adapters share: the test at the head of each request, and defaults.
use analytics_hub.Prelude.{String, Option, none, some, Bool, true, false, Outcome, ok, err}

unfoldable pub when_connected : {A : Type 0} → Bool → String → A → Outcome A String
when_connected true message answer = ok answer
when_connected false message answer = err message

unfoldable pub or_else : {A : Type 0} → Option A → A → A
or_else none a = a
or_else (some b) a = b
