-- ===== src/Cluster/Health.antt =====
-- The health checks of src/infra/k8s/health.rs, over a server that is a parameter.
use analytics_hub.Prelude.{
  ℕ, String, Option, none, some, Bool, true, false, ◌&&◌, List, [], ◌∷◌, ◌++◌, length, count, ◌==◌,
  ltb, Outcome, ok, err, if◌then◌else◌,
}
use analytics_hub.Prelude.Dict.{str_eq}
use analytics_hub.Cluster.{
  Pod, Deployment, ApiServer, ensure_namespace, is_pod_ready, get_pod_phase, is_deployment_ready,
}

pub record HealthCheck : Type 0 where
  pub name : String
  pub passed : Bool
  pub message : String
  pub details : Option (List (String × ℕ))

pub record HealthCheckResult : Type 0 where
  pub healthy : Bool
  pub checks : List HealthCheck

-- `HealthCheckResult::new`
unfoldable pub new_health : HealthCheckResult
new_health = record { healthy = true; checks = [] }

-- `HealthCheckResult::add_check`
unfoldable pub add_health_check : HealthCheck → HealthCheckResult → HealthCheckResult
add_health_check check r = record {
  healthy = if check.passed then r.healthy else false;
  checks = r.checks ++ check ∷ [];
}

-- `HealthCheck::passed`
unfoldable pub passed_check : String → String → HealthCheck
passed_check name message = record { name = name; passed = true; message = message; details = none }

-- `HealthCheck::failed`
unfoldable pub failed_check : String → String → HealthCheck
failed_check name message = record {
  name = name;
  passed = false;
  message = message;
  details = none;
}

unfoldable pub with_details : List (String × ℕ) → HealthCheck → HealthCheck
with_details details c = record c { details = some details }

-- The messages, which `format!` writes.
pub record Messages (E : Type 0) : Type 0 where
  pub exists : String → String
  pub all_ready : ℕ → String
  pub only_ready : ℕ → ℕ → String
  pub found : ℕ → String
  pub unavailable : E → String

module _ {E : Type 0} (messages : Messages E) where
  unfoldable pub namespace_check : String → Outcome (Unit {0}) E → HealthCheck
  namespace_check namespace (ok u) = passed_check "namespace" (messages.exists namespace)
  namespace_check namespace (err e) = failed_check "namespace" (messages.unavailable e)

  -- The tail of `check_pods` and of `check_deployments`.
  unfoldable pub ready_check : String → String → List (String × ℕ) → ℕ → ℕ → HealthCheck
  ready_check name missing details ready total =
      if ready == total && ltb 0 total
      then with_details details (passed_check name (messages.all_ready total))
      else if total == 0
      then with_details details (passed_check name missing)
      else with_details details (failed_check name (messages.only_ready ready total))

  unfoldable pub pods_check : Outcome (List Pod) E → HealthCheck
  pods_check (ok pods) =
      let total = length pods in
      let ready = count is_pod_ready pods in
      let running = count (λ p. str_eq (get_pod_phase p) "Running") pods in
      ready_check "pods" "No pods found (may be expected)"
        (("total", total) ∷ ("ready", ready) ∷ ("running", running) ∷ []) ready total
  pods_check (err e) = failed_check "pods" (messages.unavailable e)

  unfoldable pub deployments_check : Outcome (List Deployment) E → HealthCheck
  deployments_check (ok deployments) =
      let total = length deployments in
      let ready = count is_deployment_ready deployments in
      ready_check "deployments" "No deployments found (may be expected)"
        (("total", total) ∷ ("ready", ready) ∷ []) ready total
  deployments_check (err e) = failed_check "deployments" (messages.unavailable e)

  unfoldable pub services_check : {S : Type 0} → Outcome (List S) E → HealthCheck
  services_check (ok services) =
      let total = length services in
      if ltb 0 total
      then with_details (("total", total) ∷ []) (passed_check "services" (messages.found total))
      else with_details (("total", total) ∷ [])
          (passed_check "services" "No services found (may be expected)")
  services_check (err e) = failed_check "services" (messages.unavailable e)

module _ (server : ApiServer) (messages : Messages server.ApiError) (namespace : String) where
  -- `check_all`, on the cluster and then on what `check_namespace` has left of it.
  unfoldable pub check_all : server.State → HealthCheckResult × server.State
  check_all s =
      let (found, s') = ensure_namespace server namespace s in
      let r = add_health_check (namespace_check messages namespace found) new_health in
      let r = add_health_check (pods_check messages (server.list_pods namespace s')) r in
      let r =
        add_health_check (deployments_check messages (server.list_deployments namespace s')) r in
      let r = add_health_check (services_check messages (server.list_services namespace s')) r in
      (r, s')
