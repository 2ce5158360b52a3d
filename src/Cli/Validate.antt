-- ===== src/Cli/Validate.antt =====
-- src/cli/validate: the commands that validate the hub, over the validators of src/infra/validation.
-- Their listing is of the namespace that the arguments or the configuration name.
pub mod Answers
pub mod Verdict
pub mod Exit
use analytics_hub.Prelude.{
  ℕ, String, Option, none, some, Bool, true, false, not, ◌&&◌, List, [], ◌∷◌, if◌then◌else◌,
  Outcome, ok, err, map_err,
}
use analytics_hub.Prelude.Effects.{Effect, pure, raise, continue, ◌>>=◌, ◌>>◌}
use analytics_hub.Cli.Cleanup.{Context}
use analytics_hub.Validation.{ValidationResults, ValidationReport, new_report, add_category}
use analytics_hub.Validation.Listing.{Listing}
use analytics_hub.Validation.Prerequisites.{Tools, validate_prerequisites}
use analytics_hub.Validation.Programs.{Programs}
use analytics_hub.Validation.Nodes.{validate_cluster}
use analytics_hub.Validation.Services.{validate_services}
use analytics_hub.Validation.Databases.{validate_databases}
use analytics_hub.Validation.Security.{validate_security}
use analytics_hub.Validation.Network.{validate_network}
use analytics_hub.Validation.Resources.{validate_resources}

-- `CommandOutput` of src/common/output.rs, whose data is the report, before it is written as JSON.
pub record CommandOutput : Type 0 where
  pub success : Bool
  pub message : String
  pub report : Option ValidationReport
  pub errors : List String

-- What a command prints at its end: JSON, a report with its totals, or a table for each category.
pub data Printed : Type 0 where
  as_json : CommandOutput → Printed
  as_report : ValidationReport → Printed
  as_tables : List ValidationResults → Printed

-- The error a command ends with, after it has printed what it failed on.
pub data ValidateError (E : Type 0) : Type 0 where
  no_client : E → ValidateError E
  failed_to_run : String → E → ValidateError E
  validation_failed : String → Printed → ValidateError E

unfoldable pub success_with_data : String → ValidationReport → CommandOutput
success_with_data message report = record {
  success = true;
  message = message;
  report = some report;
  errors = [];
}

unfoldable pub failure_with_data : String → ValidationReport → CommandOutput
failure_with_data message report = record {
  success = false;
  message = message;
  report = some report;
  errors = [];
}

module _ {S E : Type 0} where
  -- The first branch of `output_results`.
  unfoldable pub output_json :
      String → String → Bool → ValidationReport → Effect S (ValidateError E) Printed
  output_json passed failed healthy report = pure (
      as_json
        (if healthy then success_with_data passed report else failure_with_data failed report))

  -- The second branch of `output_results`.
  unfoldable pub output_text : String → Bool → Printed → Effect S (ValidateError E) Printed
  output_text failed healthy printed =
      if healthy then pure printed else raise (validation_failed failed printed)

  -- `.context(what)?`
  unfoldable pub with_context : {A : Type 0} → String → Effect S E A → Effect S (ValidateError E) A
  with_context what m s = let (r, s') = m s in (map_err (failed_to_run what) r, s')

  -- A validator's run, and `add_category`.
  unfoldable pub category :
      String
      → Effect S E ValidationResults
      → ValidationReport
      → Effect S (ValidateError E) ValidationReport
  category what validate report = do
    results ← with_context what validate
    pure (add_category results report)

  unfoldable pub connect : Outcome (Unit {0}) E → Effect S (ValidateError E) (Unit {0})
  connect (ok u) = pure u
  connect (err e) = raise (no_client e)

  -- A validator that only lists.
  unfoldable pub lists : Outcome ValidationResults E → Effect S E ValidationResults
  lists answer s = (answer, s)

unfoldable pub add_categories : List ValidationResults → ValidationReport → ValidationReport
add_categories [] report = report
add_categories (results ∷ all) report = add_categories all (add_category results report)

unfoldable pub all_healthy : List ValidationResults → Bool
all_healthy [] = true
all_healthy (results ∷ all) = results.healthy && all_healthy all

module _ (number : ℕ → String) (t : Tools) (l : Listing) (p : Programs l.Error)
    (client ensured : Outcome (Unit {0}) l.Error) (now : String) where
  abbrev pub Command : Type 0
  Command = Effect p.State (ValidateError l.Error) Printed

  abbrev pub Adding : Type 0
  Adding = ValidationReport → Effect p.State (ValidateError l.Error) ValidationReport

  unfoldable pub add_prerequisites : ValidationReport → ValidationReport
  add_prerequisites report = add_category (validate_prerequisites t) report

  unfoldable pub add_cluster : Adding
  add_cluster =
      category "Failed to run cluster validation" (lists (validate_cluster number l ensured))

  unfoldable pub add_services : Adding
  add_services = category "Failed to run service validation" (lists (validate_services number l))

  unfoldable pub add_databases : Adding
  add_databases = category "Failed to run database validation" (validate_databases l p)

  unfoldable pub add_security : Adding
  add_security = category "Failed to run security validation" (lists (validate_security number l))

  unfoldable pub add_network : Adding
  add_network = category "Failed to run network validation" (validate_network number l p)

  unfoldable pub add_resources : Adding
  add_resources = category "Failed to run resource validation" (lists (validate_resources number l))

  -- Steps 2 to 7 of `ValidateAllArgs::execute`.
  unfoldable pub run_steps : Bool → Adding
  run_steps fast report = do
    connect client
    cluster ← add_cluster report
    services ← add_services cluster
    databases ← if fast then pure services else add_databases services
    security ← add_security databases
    network ← if fast then pure security else add_network security
    add_resources network

  unfoldable pub output_all : Context → ValidationReport → Command
  output_all ctx report =
      if ctx.json_output
      then output_json "All validations passed" "Some validations failed" report.healthy report
      else output_text "Validation failed" report.healthy (as_report report)

  -- `ValidateAllArgs::execute`
  unfoldable pub validate_all : Bool → Context → Command
  validate_all fast ctx =
      let report = add_prerequisites (new_report now l.namespace) in
      if not report.healthy then output_all ctx report else run_steps fast report >>= output_all ctx

  -- `output_results` for one category.
  unfoldable pub output_category : String → String → Context → ValidationResults → Command
  output_category passed failed ctx results =
      let report = add_category results (new_report now l.namespace) in
      if ctx.json_output
      then output_json passed failed report.healthy report
      else output_text failed results.healthy (as_tables (results ∷ []))

  unfoldable pub run_category :
      String → String → String → Effect p.State l.Error ValidationResults → Context → Command
  run_category what passed failed validate ctx = do
    connect client
    results ← with_context what validate
    output_category passed failed ctx results

  -- `DatabaseValidateArgs::execute`
  unfoldable pub execute_databases : Context → Command
  execute_databases =
      run_category "Failed to run database validation" "Database validation passed"
        "Database validation failed" (validate_databases l p)

  -- `ServiceValidateArgs::execute`
  unfoldable pub execute_services : Context → Command
  execute_services =
      run_category "Failed to run service validation" "Service validation passed"
        "Service validation failed" (lists (validate_services number l))

  -- `SecurityValidateArgs::execute`
  unfoldable pub execute_security : Context → Command
  execute_security =
      run_category "Failed to run security validation" "Security validation passed"
        "Security validation failed" (lists (validate_security number l))

  -- `output_results` of src/cli/validate/cluster.rs
  unfoldable pub output_cluster : Context → List ValidationResults → Bool → Command
  output_cluster ctx all_results overall_healthy =
      let report = add_categories all_results (new_report now l.namespace) in
      if ctx.json_output
      then output_json "Cluster validation passed" "Cluster validation failed"
          (overall_healthy && report.healthy) report
      else output_text "Cluster validation failed" (overall_healthy && all_healthy all_results)
          (as_tables all_results)

  -- `ClusterValidateArgs::execute`
  unfoldable pub execute_cluster : Context → Command
  execute_cluster ctx =
      let prerequisites = validate_prerequisites t in
      if not prerequisites.healthy then output_cluster ctx (prerequisites ∷ []) false else do
        connect client
        cluster ←
            with_context "Failed to run cluster validation"
              (lists (validate_cluster number l ensured))
        output_cluster ctx (prerequisites ∷ cluster ∷ []) true
