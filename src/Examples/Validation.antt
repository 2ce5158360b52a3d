-- ===== src/Examples/Validation.antt =====
-- The validators on a cluster with one ready node and a privileged pod that runs as root.
use analytics_hub.Prelude.{
  ℕ, ◌+◌, ◌≡◌, refl, String, none, some, true, false, [], ◌∷◌, ok, err, is_ok,
}
use analytics_hub.Prelude.Int.{pos}
use analytics_hub.Cluster.{Pod}
use analytics_hub.Validation.Listing.{Listing, Node}
use analytics_hub.Validation.Prerequisites.{Tools}
use analytics_hub.Validation.Programs.{Programs}
use analytics_hub.Cli.Validate.{CommandOutput, as_json, validate_all}
use analytics_hub.Cli.Validate.Answers.{Answered}
use analytics_hub.Cli.Validate.Exit.{is_validated, validate_all_verdict, json_always_succeeds}

abbrev privileged_pod : Pod
privileged_pod = record {
  name = some "analytics-api-0";
  spec = some (record {
    run_as_user = some (pos 0);
    containers = (record { privileged = some true; requests = none; limits = none }) ∷ [];
  });
  status = some (record { phase = some "Pending"; conditions = none; pod_ip = none });
}

abbrev ready_node : Node
ready_node = record {
  name = some "node-1";
  conditions = some ((record { kind = "Ready"; status = "True" }) ∷ []);
}

abbrev listed : Listing
listed = record {
  Error = String;
  namespace = "hub";
  pods = λ namespace label. ok (privileged_pod ∷ []);
  nodes = ok (ready_node ∷ []);
  services = ok 2;
  network_policies = ok 0;
  disruption_budgets = ok 0;
  autoscalers = ok 0;
  ingresses = ok 0;
  secret_types = ok (none ∷ []);
}

-- kubectl and helm run.
abbrev tools : Tools
tools = record {
  Error = String;
  output = λ command. ok (record { success = true; code = some (pos 0); stdout = []; stderr = [] });
  from_utf8_lossy = λ bytes. "v1.30";
  lines = λ text. text ∷ [];
  trim = λ text. text;
}

-- Every program answers so, and counts its runs.
abbrev programs : Programs String
programs = record {
  State = ℕ;
  exec_in_pod = λ pod command s. (ok "rejecting connections", s + 1);
  run_pod_command = λ name image args s. (err "no such host", s + 1);
}

abbrev listed-Answered : Answered listed
listed-Answered = record {
  nodes = ready_node ∷ [];
  system = privileged_pod ∷ [];
  apps = privileged_pod ∷ [];
  timescale = privileged_pod ∷ [];
  redis = privileged_pod ∷ [];
  kafka = privileged_pod ∷ [];
  all = privileged_pod ∷ [];
  metrics = privileged_pod ∷ [];
  services = 2;
  policies = 0;
  budgets = 0;
  autoscalers = 0;
  ingresses = 0;
  kinds = none ∷ [];
  nodes_listed = refl;
  system_listed = refl;
  apps_listed = refl;
  timescale_listed = refl;
  redis_listed = refl;
  kafka_listed = refl;
  all_listed = refl;
  metrics_listed = refl;
  services_counted = refl;
  policies_counted = refl;
  budgets_counted = refl;
  autoscalers_counted = refl;
  ingresses_counted = refl;
  kinds_listed = refl;
}

validate_all_verdict_example :
    is_ok
      (validate_all
        (λ n. "n")
        tools
        listed
        programs
        (ok tt)
        (ok tt)
        "now"
        false
        (record { dry_run = false; json_output = false })
        0).0
    ≡ is_validated
        (λ n. "n")
        tools
        listed
        programs
        (ok tt)
        (ok tt)
        "now"
        listed-Answered
        refl
        false
        0
validate_all_verdict_example =
    validate_all_verdict (λ n. "n") tools listed programs (ok tt) (ok tt) "now" listed-Answered refl
      false (record { dry_run = false; json_output = false }) 0 refl

json_always_succeeds_example :
    (o : CommandOutput) × ((validate_all
        (λ n. "n")
        tools
        listed
        programs
        (ok tt)
        (ok tt)
        "now"
        true
        (record { dry_run = false; json_output = true })
        0).0
      ≡ ok (as_json o))
    × (o.success
        ≡ is_validated
            (λ n. "n")
            tools
            listed
            programs
            (ok tt)
            (ok tt)
            "now"
            listed-Answered
            refl
            true
            0)
json_always_succeeds_example =
    json_always_succeeds (λ n. "n") tools listed programs (ok tt) (ok tt) "now" listed-Answered refl
      true (record { dry_run = false; json_output = true }) 0 refl
