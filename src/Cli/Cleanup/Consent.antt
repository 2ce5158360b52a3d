-- ===== src/Cli/Cleanup/Consent.antt =====
-- Who is asked before src/cli/utils/cleanup.rs destroys anything.
use analytics_hub.Prelude.{
  ◌≡◌, String, Bool, true, false, ◌&&◌, [], ◌∷◌, if◌then◌else◌, Outcome, ok, err, All,
}
use analytics_hub.Prelude.Dict.{str_eq}
use analytics_hub.Prelude.Effects.{pure, ◌>>◌}
use analytics_hub.Cli.Cleanup.{CleanupError, failed, confirmation_failed, cancelled, Step, require}
use analytics_hub.Cli.Cleanup.Cloud.{
  Action, asked, delete_production, destroy_environment, Outside, Log,
}

-- The log only says that questions were asked.
abbrev pub is_question : Action → Bool
is_question (asked q) = true
is_question a = false

abbrev pub OnlyAsked : Log → Type 0
OnlyAsked log = All (λ a. is_question a ≡ true) log

module _ (o : Outside) where
  abbrev pub answers : Outcome String o.Error → String → Bool
  answers (ok line) expected = str_eq (o.trim line) expected
  answers (err e) expected = false

  -- The user agrees: to the destruction of the environment, and before it to that of production
  -- where the environment is that.
  abbrev pub agrees_if : Bool → Bool
  agrees_if production =
      if production
      then answers (o.read_line delete_production []) "DELETE PRODUCTION"
        && answers (o.read_line destroy_environment (asked delete_production ∷ [])) "yes"
      else answers (o.read_line destroy_environment []) "yes"

  abbrev pub agrees : String → Bool
  agrees environment = agrees_if (str_eq environment "production")

  -- Why a question that was not answered as expected ends the command.
  abbrev pub rejection : Outcome String o.Error → CleanupError o.Error → CleanupError o.Error
  rejection (ok line) e = e
  rejection (err x) e = failed x

  abbrev pub verdict :
      Outcome String o.Error
      → String
      → CleanupError o.Error
      → Outcome (Unit {0}) (CleanupError o.Error)
  verdict r expected e = if answers r expected then ok tt else err (rejection r e)

  -- A step that failed, having asked only.
  record Refused (r : Outcome (Unit {0}) (CleanupError o.Error) × Log) : Type 0 where
    reason : CleanupError o.Error
    result : r.0 ≡ err reason
    only_asked : OnlyAsked r.1

  abbrev confirm_if : Bool → Step o (Unit {0})
  confirm_if production = do
    if production
        then require o delete_production "DELETE PRODUCTION" confirmation_failed
        else pure tt
    require o destroy_environment "yes" cancelled
