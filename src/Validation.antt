-- ===== src/Validation.antt =====
-- src/infra/validation/types.rs: checks, the results of a category and the report. The counters are
-- `usize`, of 64 bits; the report's timestamp, which is read from the clock, is an argument.
pub mod Summaries
pub mod Listing
pub mod Services
pub mod Nodes
pub mod Security
pub mod Resources
pub mod Prerequisites
pub mod Programs
pub mod Databases
pub mod Network
pub mod Blame
pub mod Health
pub mod Usage
pub mod Decisive
pub mod Reach
use analytics_hub.Prelude.{
  ℕ, ◌+◌, ◌==◌, String, Option, none, some, Bool, true, false, List, [], ◌∷◌, ◌++◌, u64,
  if◌then◌else◌,
}
use analytics_hub.Prelude.Float.{FloatOps}

pub data CheckSeverity : Type 0 where
  critical important advisory : CheckSeverity

pub data CheckStatus : Type 0 where
  passing failing warning skipped : CheckStatus

pub record ValidationCheck : Type 0 where
  pub name : String
  pub category : String
  pub status : CheckStatus
  pub severity : CheckSeverity
  pub message : String
  pub details : Option String

pub record ValidationResults : Type 0 where
  pub category : String
  pub checks : List ValidationCheck
  pub healthy : Bool
  pub total : ℕ
  pub passed : ℕ
  pub failed : ℕ
  pub warnings : ℕ

pub record ValidationReport : Type 0 where
  pub timestamp : String
  pub environment : String
  pub categories : List ValidationResults
  pub healthy : Bool
  pub total_checks : ℕ
  pub total_passed : ℕ
  pub total_failed : ℕ
  pub total_warnings : ℕ

-- `ValidationCheck::new`
abbrev pub new_check : String → String → CheckSeverity → ValidationCheck
new_check name category severity = record {
  name = name;
  category = category;
  status = passing;
  severity = severity;
  message = "";
  details = none;
}

unfoldable pub pass : String → ValidationCheck → ValidationCheck
pass message c = record c { status = passing; message = message }

unfoldable pub fail : String → ValidationCheck → ValidationCheck
fail message c = record c { status = failing; message = message }

unfoldable pub warn : String → ValidationCheck → ValidationCheck
warn message c = record c { status = warning; message = message }

unfoldable pub skip : String → ValidationCheck → ValidationCheck
skip message c = record c { status = skipped; message = message }

unfoldable pub with_details : String → ValidationCheck → ValidationCheck
with_details details c = record c { details = some details }

-- `ValidationResults::new`
unfoldable pub new_results : String → ValidationResults
new_results category = record {
  category = category;
  checks = [];
  healthy = true;
  total = 0;
  passed = 0;
  failed = 0;
  warnings = 0;
}

abbrev pub is_critical : CheckSeverity → Bool
is_critical critical = true
is_critical important = false
is_critical advisory = false

-- The `match` of `add_check`.
unfoldable pub count_status : CheckStatus → CheckSeverity → ValidationResults → ValidationResults
count_status passing severity r = record r { passed = u64 (r.passed + 1) }
count_status failing severity r = record r {
  failed = u64 (r.failed + 1);
  healthy = if is_critical severity then false else r.healthy;
}
count_status warning severity r = record r { warnings = u64 (r.warnings + 1) }
count_status skipped severity r = r

unfoldable pub add_check : ValidationCheck → ValidationResults → ValidationResults
unfolding count_status
add_check c r =
    let r' = count_status c.status c.severity (record r { total = u64 (r.total + 1) }) in
    record r' { checks = r'.checks ++ c ∷ [] }

-- `ValidationReport::new`
unfoldable pub new_report : String → String → ValidationReport
new_report now environment = record {
  timestamp = now;
  environment = environment;
  categories = [];
  healthy = true;
  total_checks = 0;
  total_passed = 0;
  total_failed = 0;
  total_warnings = 0;
}

unfoldable pub add_category : ValidationResults → ValidationReport → ValidationReport
add_category r p = record p {
  total_checks = u64 (p.total_checks + r.total);
  total_passed = u64 (p.total_passed + r.passed);
  total_failed = u64 (p.total_failed + r.failed);
  total_warnings = u64 (p.total_warnings + r.warnings);
  healthy = if r.healthy then p.healthy else false;
  categories = p.categories ++ r ∷ [];
}

module _ (f : FloatOps) where
  abbrev rate : ℕ → ℕ → f.F
  rate passed total =
      if total == 0
      then f.of_nat 100
      else f.mul (f.div (f.of_nat passed) (f.of_nat total)) (f.of_nat 100)

  -- `ValidationResults::success_rate`
  unfoldable pub results_rate : ValidationResults → f.F
  results_rate r = rate r.passed r.total

  -- `ValidationReport::success_rate`
  unfoldable pub report_rate : ValidationReport → f.F
  report_rate p = rate p.total_passed p.total_checks
