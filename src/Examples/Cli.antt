-- ===== src/Examples/Cli.antt =====
-- The cleanup command in production, with a user who refuses.
use analytics_hub.Prelude.{◌≡◌, refl, String, Bool, true, false, [], ◌∷◌, ok}
use analytics_hub.Cli.Cleanup.{CleanupArgs, Context, cleaned, is_provider, execute_cleanup}
use analytics_hub.Cli.Cleanup.Cloud.{Outside, delete_namespace}
use analytics_hub.Cli.Cleanup.Steps.{IsSilent, Did}
use analytics_hub.Cli.Cleanup.Silent.{Answers, json_deletes_unasked}

-- The user answers "no"; the cluster answers where `there` holds.
abbrev reluctant : Bool → Outside
reluctant there = record {
  Error = String;
  read_line = λ q log. ok "no";
  trim = λ s. s;
  new_client = λ ns log. ok tt;
  is_accessible = λ log. there;
  output = λ log. ok "None";
}

abbrev production : CleanupArgs
production = record {
  environment = "production";
  provider = "aws";
  force = false;
  skip_backup = false;
  k8s_only = true;
  namespace = "llm-analytics-hub";
  additional_namespaces = "staging" ∷ [];
}

abbrev at_terminal : Context
at_terminal = record { dry_run = false; json_output = false }

abbrev in_script : Context
in_script = record { dry_run = false; json_output = true }

aws_known : is_provider "aws" ≡ true
unfolding is_provider
aws_known = refl

cluster-Answers : Answers (reluctant true) "llm-analytics-hub"
cluster-Answers = record { connects = λ log. refl; accessible = λ log. refl }

json_deletes_unasked_example :
    ((execute_cleanup (reluctant true) production in_script []).0 ≡ ok (cleaned true false))
    × IsSilent (execute_cleanup (reluctant true) production in_script []).1
    × Did
        (delete_namespace "llm-analytics-hub")
        (execute_cleanup (reluctant true) production in_script []).1
json_deletes_unasked_example =
    json_deletes_unasked (reluctant true) production cluster-Answers in_script aws_known refl refl
