-- ===== src/Validation/Resources.antt =====
-- src/infra/validation/resources.rs
use analytics_hub.Prelude.{
  ℕ, String, some, none, Bool, true, List, [], ◌∷◌, length, ◌==◌, if◌then◌else◌, Outcome,
}
use analytics_hub.Cluster.{Pod}
use analytics_hub.Validation.{
  ValidationCheck, ValidationResults, important, advisory, new_check, new_results, pass, warn,
}
use analytics_hub.Validation.Listing.{Listing, of_answer, add_all}
use analytics_hub.Validation.Security.{containers_pass, is_unset, named, none_or_warn, some_or_warn}

unfoldable pub metrics_server : List Pod → ValidationCheck
metrics_server pods =
    let check = new_check "node-resources" "Resource Utilization" important in
    if length pods == 0
    then warn "Metrics server not installed - cannot check node resource usage" check
    else pass "Metrics server is available for resource monitoring" check

unfoldable pub lacks_requests : Pod → Bool
lacks_requests pod = containers_pass true (λ c. is_unset c.requests) pod.spec

module _ (number : ℕ → String) where
  unfoldable pub resource_requests : List Pod → ValidationCheck
  resource_requests pods =
      none_or_warn number (new_check "pod-resource-requests" "Resource Utilization" important)
        "All pods have resource requests defined"
        " pod(s) without resource requests - scheduling may be inefficient"
        (named lacks_requests pods)

  unfoldable pub autoscalers_check : ℕ → ValidationCheck
  autoscalers_check n =
      some_or_warn number (new_check "hpa-configured" "Resource Utilization" advisory)
        "HPA configured (" " autoscalers)" "No HPA configured - automatic scaling not enabled" n

  unfoldable pub validate_resources : (l : Listing) → Outcome ValidationResults l.Error
  validate_resources l =
      add_all
        (of_answer metrics_server (l.pods "kube-system" (some "k8s-app=metrics-server"))
          ∷ of_answer resource_requests (l.pods l.namespace none)
          ∷ of_answer autoscalers_check l.autoscalers
          ∷ [])
        (new_results "Resource Utilization")
