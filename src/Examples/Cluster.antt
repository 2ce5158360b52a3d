-- ===== src/Examples/Cluster.antt =====
-- The health checks at a small cluster, which has a namespace or has not.
use analytics_hub.Prelude.{
  ℕ, ◌≡◌, refl, String, none, some, Bool, true, false, [], ◌∷◌, all, Outcome, ok, err,
}
use analytics_hub.Prelude.Int.{pos}
use analytics_hub.Cluster.{Pod, Deployment, ApiServer}
use analytics_hub.Cluster.Health.{Messages, check_all}
use analytics_hub.Cluster.Verdict.{
  is_expected, IsApiServer, check_all_verdict, check_creates_namespace,
}

abbrev ready_pod : Pod
ready_pod = record {
  name = some "hub-0";
  spec = none;
  status = some (record {
    phase = some "Running";
    pod_ip = none;
    conditions = some ((record { kind = "Ready"; status = "True" }) ∷ []);
  });
}

-- One of two replicas is ready.
abbrev half_ready : Deployment
half_ready = record {
  spec = some (record { replicas = some (pos 2) });
  status = some (record { ready_replicas = some (pos 1) });
}

abbrev found_or_missing : Bool → Outcome (Unit {0}) String
found_or_missing true = ok tt
found_or_missing false = err "NotFound"

abbrev small_cluster : ApiServer
small_cluster = record {
  State = Bool;
  ApiError = String;
  Service = ℕ;
  get_namespace = λ namespace s. found_or_missing s;
  create_namespace = λ namespace s. (ok tt, true);
  list_pods = λ namespace s. ok (ready_pod ∷ []);
  list_deployments = λ namespace s. ok (half_ready ∷ []);
  list_services = λ namespace s. ok [];
}

small_cluster-IsApiServer : IsApiServer small_cluster
small_cluster-IsApiServer = record { get-create = λ namespace s created. refl }

abbrev plain_messages : Messages String
plain_messages = record {
  exists = λ namespace. "exists";
  all_ready = λ n. "all";
  only_ready = λ n m. "only";
  found = λ n. "found";
  unavailable = λ e. e;
}

check_all_verdict_example :
    ((check_all small_cluster plain_messages "hub" true).0.healthy
      ≡ is_expected small_cluster plain_messages "hub" true)
    × ((check_all small_cluster plain_messages "hub" true).0.healthy
        ≡ all (λ c. c.passed) (check_all small_cluster plain_messages "hub" true).0.checks)
check_all_verdict_example = check_all_verdict small_cluster plain_messages "hub" true

check_creates_namespace_example :
    ((check_all small_cluster plain_messages "hub" false).1 ≡ true)
    × (small_cluster.get_namespace "hub" (check_all small_cluster plain_messages "hub" false).1
        ≡ ok tt)
    × ((check_all small_cluster plain_messages "hub"
          (check_all small_cluster plain_messages "hub" false).1).1
        ≡ (check_all small_cluster plain_messages "hub" false).1)
check_creates_namespace_example =
    check_creates_namespace small_cluster plain_messages "hub" small_cluster-IsApiServer false
      "NotFound" refl refl
