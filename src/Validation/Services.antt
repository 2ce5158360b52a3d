-- ===== src/Validation/Services.antt =====
-- src/infra/validation/services.rs
use analytics_hub.Prelude.{
  ℕ, String, some, List, [], ◌∷◌, length, count, ◌==◌, ltb, leb, if◌then◌else◌, Outcome,
}
use analytics_hub.Prelude.Text.{◌++◌}
use analytics_hub.Cluster.{Pod, is_pod_ready}
use analytics_hub.Validation.{
  ValidationCheck, ValidationResults, critical, important, new_check, new_results, pass, fail, warn,
  skip,
}
use analytics_hub.Validation.Listing.{Listing, running, ratio, of_answer, add_all}

module _ (number : ℕ → String) where
  unfoldable pub app_pods : List Pod → ValidationCheck
  app_pods pods =
      let check = new_check "app-pods-running" "Service Availability" critical in
      let total = length pods in
      if total == 0
      then warn "No application pods found - may not be deployed yet" check
      else if running pods == total
      then pass ("All application pods running" ++ ratio number (running pods) total) check
      else if ltb 0 (running pods)
      then warn ("Some application pods not running" ++ ratio number (running pods) total) check
      else fail "No application pods running" check

  unfoldable pub pod_readiness : List Pod → ValidationCheck
  pod_readiness pods =
      let check = new_check "pods-ready" "Service Availability" important in
      let total = length pods in
      let ready = count is_pod_ready pods in
      if total == 0
      then skip "No pods to check readiness" check
      else if ready == total
      then pass ("All pods ready" ++ ratio number ready total) check
      else warn ("Some pods not ready" ++ ratio number ready total) check

  unfoldable pub timescaledb_pods : List Pod → ValidationCheck
  timescaledb_pods pods =
      let check = new_check "timescaledb-running" "Service Availability" critical in
      if ltb 0 (running pods)
      then pass ("TimescaleDB is running (" ++ number (running pods) ++ " pod(s))") check
      else fail "TimescaleDB is not running" check

  -- `check_redis` and `check_kafka`, which differ in their names.
  unfoldable pub three_running : String → String → List Pod → ValidationCheck
  three_running check_name name pods =
      let check = new_check check_name "Service Availability" important in
      if leb 3 (running pods)
      then pass (name ++ " cluster is running (" ++ number (running pods) ++ " pods)") check
      else if ltb 0 (running pods)
      then warn
          (name ++ " cluster partially running (" ++ number (running pods) ++ " pods, expected 3+)")
          check
      else fail (name ++ " cluster is not running") check

  unfoldable pub services_configured : ℕ → ValidationCheck
  services_configured service_count =
      let check = new_check "services-configured" "Service Availability" important in
      if ltb 0 service_count
      then pass ("Services configured (" ++ number service_count ++ " services)") check
      else fail "No services configured" check

  unfoldable pub validate_services : (l : Listing) → Outcome ValidationResults l.Error
  validate_services l =
      add_all
        (of_answer app_pods (l.pods l.namespace (some "app=analytics-api"))
          ∷ of_answer pod_readiness (l.pods l.namespace (some "app=analytics-api"))
          ∷ of_answer timescaledb_pods (l.pods l.namespace (some "app=timescaledb"))
          ∷ of_answer (three_running "redis-cluster" "Redis")
              (l.pods l.namespace (some "app=redis"))
          ∷ of_answer (three_running "kafka-cluster" "Kafka")
              (l.pods l.namespace (some "app=kafka"))
          ∷ of_answer services_configured l.services
          ∷ [])
        (new_results "Service Availability")
