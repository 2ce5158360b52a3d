-- ===== src/Validation/Usage.antt =====
-- Why no answer of the cluster makes the resources of src/infra/validation/resources.rs unhealthy.
use analytics_hub.Prelude.{
  ℕ, ◌≡◌, refl, ◌∙◌, String, some, none, true, false, List, [], ◌∷◌, ok, arith,
}
use analytics_hub.Cluster.{Pod}
use analytics_hub.Validation.{ValidationResults, new_results, pass, warn}
use analytics_hub.Validation.Blame.{blames, added_all, none_or_warn_blame, some_or_warn_blame}
use analytics_hub.Validation.Listing.{Listing, of_answer}
use analytics_hub.Validation.Resources.{
  metrics_server, resource_requests, autoscalers_check, validate_resources,
}

module _ (number : ℕ → String) where
  metrics_blame : (pods : List Pod) → blames (metrics_server pods) ≡ false
  unfolding metrics_server pass warn
  metrics_blame pods = ground arith

  requests_blame : (pods : List Pod) → blames (resource_requests number pods) ≡ false
  unfolding resource_requests
  requests_blame pods = none_or_warn_blame number _ _ _ _

  autoscalers_blame : (n : ℕ) → blames (autoscalers_check number n) ≡ false
  unfolding autoscalers_check
  autoscalers_blame n = some_or_warn_blame number _ _ _ _ _

  -- The resources are healthy whatever they are: no check of them is critical.
  pub resources_always_healthy :
      (l : Listing) (metrics pods : List Pod) (autoscalers : ℕ)
      → l.pods "kube-system" (some "k8s-app=metrics-server") ≡ ok metrics
      → l.pods l.namespace none ≡ ok pods
      → l.autoscalers ≡ ok autoscalers
      → (r : ValidationResults) × (validate_resources number l ≡ ok r) × (r.healthy ≡ true)
  unfolding validate_resources of_answer new_results
  resources_always_healthy l metrics pods autoscalers p q u =
      let (r, total, healthy) =
        added_all {E = l.Error}
          (metrics_server metrics
            ∷ resource_requests number pods
            ∷ autoscalers_check number autoscalers
            ∷ [])
          (new_results "Resource Utilization") in
      (
        r,
        rw (p, q, u) total,
        healthy
            ∙ rw (metrics_blame metrics, requests_blame pods, autoscalers_blame autoscalers) refl,
      )
