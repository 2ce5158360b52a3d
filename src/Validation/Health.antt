-- ===== src/Validation/Health.antt =====
-- When the validators of src/infra/validation call a category unhealthy.
use analytics_hub.Prelude.{
  ℕ, ◌≡◌, ◌≤◌, refl, sym, ap, subst, ◌∙◌, String, Option, some, none, Bool, true, false, not, ◌&&◌,
  ◌||◌, List, [], ◌∷◌, length, count, count-le-length, ◌==◌, Outcome, ok, err, is_ok, arith,
}
use analytics_hub.Cluster.{Pod}
use analytics_hub.Validation.{
  ValidationCheck, ValidationResults, new_results, pass, fail, warn, skip,
}
use analytics_hub.Validation.Blame.{
  blames, added_all, chosen_blame, NoneFails, added_none, none_or_warn_fails, some_or_warn_fails,
}
use analytics_hub.Validation.Listing.{Listing, Node, running, of_answer}
use analytics_hub.Validation.Services.{
  app_pods, pod_readiness, timescaledb_pods, three_running, services_configured, validate_services,
}
use analytics_hub.Validation.Nodes.{
  is_node_ready, nodes_ready, node_pressure, system_pods, namespace_exists, validate_cluster,
}
use analytics_hub.Validation.Security.{
  root_pods, privileged_containers, network_policies_check, disruption_budgets_check, secrets_check,
  resource_limits, validate_security,
}

two_blame :
    (a b : Bool)
    → (not (a || (false || (b || (false || (false || (false || false)))))) && true) ≡ not (a || b)
two_blame a b = ground arith

either_blame :
    (a e : Bool) → (not (a || (false || (false || (not e || false)))) && true) ≡ (not a && e)
either_blame a e = ground arith

running-le-length : (pods : List Pod) → running pods ≤ length pods
unfolding running
running-le-length pods = count-le-length _ pods

module _ (number : ℕ → String) where
  abbrev security_checks : List Pod → ℕ → ℕ → List (Option String) → List ValidationCheck
  security_checks pods policies budgets kinds =
      root_pods number pods
      ∷ privileged_containers number pods
      ∷ network_policies_check number policies
      ∷ disruption_budgets_check number budgets
      ∷ secrets_check number kinds
      ∷ resource_limits number pods
      ∷ []

  security-NoneFails :
      (pods : List Pod) (policies budgets : ℕ) (kinds : List (Option String))
      → NoneFails (security_checks pods policies budgets kinds)
  unfolding root_pods privileged_containers network_policies_check disruption_budgets_check
      secrets_check resource_limits
  security-NoneFails pods policies budgets kinds = (
    none_or_warn_fails number _ _ _ _,
    (
      none_or_warn_fails number _ _ _ _,
      (
        some_or_warn_fails number _ _ _ _ _,
        (
          some_or_warn_fails number _ _ _ _ _,
          (some_or_warn_fails number _ _ _ _ _, (none_or_warn_fails number _ _ _ _, tt)),
        ),
      ),
    ),
  )

  pub security_always_healthy :
      (l : Listing) (pods : List Pod) (policies budgets : ℕ) (kinds : List (Option String))
      → l.pods l.namespace none ≡ ok pods
      → l.network_policies ≡ ok policies
      → l.disruption_budgets ≡ ok budgets
      → l.secret_types ≡ ok kinds
      → (r : ValidationResults) × (validate_security number l ≡ ok r)
        × (r.healthy ≡ true)
        × (r.failed ≡ 0)
        × NoneFails r.checks
        × (length r.checks ≡ 6)
  unfolding validate_security of_answer new_results
  security_always_healthy l pods policies budgets kinds p q u v =
      let checks = security_checks pods policies budgets kinds in
      let none_fails = security-NoneFails pods policies budgets kinds in
      let (r, total, healthy, failed, listed) =
        added_none {E = l.Error} checks (new_results "Security Compliance") none_fails in
      (
        r,
        rw (p, q, u, v) total,
        healthy,
        failed,
        subst NoneFails (sym listed) none_fails,
        ap length listed,
      )

  app_pods_blame :
      (pods : List Pod)
      → blames (app_pods number pods) ≡ (not (length pods == 0) && (running pods == 0))
  unfolding app_pods pass fail warn
  app_pods_blame pods = ground (arith, running-le-length pods)

  nodes_blame :
      (nodes : List Node) → blames (nodes_ready number nodes) ≡ (count is_node_ready nodes == 0)
  unfolding nodes_ready pass fail warn
  nodes_blame nodes = ground (arith, count-le-length is_node_ready nodes)

  timescaledb_blame :
      (pods : List Pod) → blames (timescaledb_pods number pods) ≡ (running pods == 0)
  unfolding timescaledb_pods pass fail
  timescaledb_blame pods = ground arith

  readiness_blame : (pods : List Pod) → blames (pod_readiness number pods) ≡ false
  unfolding pod_readiness pass warn skip
  readiness_blame pods = ground arith

  three_blame :
      (check name : String) (pods : List Pod)
      → blames (three_running number check name pods) ≡ false
  unfolding three_running pass warn fail
  three_blame check name pods = ground arith

  configured_blame : (n : ℕ) → blames (services_configured number n) ≡ false
  unfolding services_configured pass fail
  configured_blame n = ground arith

  pressure_blame : (nodes : List Node) → blames (node_pressure number nodes) ≡ false
  unfolding node_pressure
  pressure_blame nodes = chosen_blame _ _ _ _

  system_blame : (pods : List Pod) → blames (system_pods number pods) ≡ false
  unfolding system_pods pass warn fail
  system_blame pods = ground arith

  namespace_blame :
      {E : Type 0} (namespace : String) (o : Outcome (Unit {0}) E)
      → blames (namespace_exists namespace o) ≡ not (is_ok o)
  unfolding namespace_exists pass fail
  namespace_blame namespace (ok u) = refl
  namespace_blame namespace (err e) = refl

  -- The services are unhealthy if, and only if, TimescaleDB has no running pod, or the application has
  -- pods and none of them runs: Redis and Kafka may be down, and the application may be missing.
  pub services_verdict :
      (l : Listing) (apps timescale redis kafka : List Pod) (services : ℕ)
      → l.pods l.namespace (some "app=analytics-api") ≡ ok apps
      → l.pods l.namespace (some "app=timescaledb") ≡ ok timescale
      → l.pods l.namespace (some "app=redis") ≡ ok redis
      → l.pods l.namespace (some "app=kafka") ≡ ok kafka
      → l.services ≡ ok services
      → (r : ValidationResults) × (validate_services number l ≡ ok r)
        × (r.healthy
            ≡ not ((not (length apps == 0) && running apps == 0) || running timescale == 0))
  unfolding validate_services of_answer new_results
  services_verdict l apps timescale redis kafka services p q u v w =
      let (r, total, healthy) =
        added_all {E = l.Error}
          (app_pods number apps
            ∷ pod_readiness number apps
            ∷ timescaledb_pods number timescale
            ∷ three_running number "redis-cluster" "Redis" redis
            ∷ three_running number "kafka-cluster" "Kafka" kafka
            ∷ services_configured number services
            ∷ [])
          (new_results "Service Availability") in
      (
        r,
        rw (p, q, u, v, w) total,
        healthy
            ∙ rw
                (
                  app_pods_blame apps,
                  readiness_blame apps,
                  timescaledb_blame timescale,
                  three_blame "redis-cluster" "Redis" redis,
                  three_blame "kafka-cluster" "Kafka" kafka,
                  configured_blame services,
                )
                (two_blame (not (length apps == 0) && running apps == 0) (running timescale == 0)),
      )

  -- The cluster is unhealthy if, and only if, none of its nodes is ready, or the namespace is missing
  -- and could not be created.
  pub cluster_verdict :
      (l : Listing) (ensured : Outcome (Unit {0}) l.Error) (nodes : List Node) (pods : List Pod)
      → l.nodes ≡ ok nodes
      → l.pods "kube-system" none ≡ ok pods
      → (r : ValidationResults) × (validate_cluster number l ensured ≡ ok r)
        × (r.healthy ≡ (not (count is_node_ready nodes == 0) && is_ok ensured))
  unfolding validate_cluster of_answer new_results
  cluster_verdict l ensured nodes pods p q =
      let (r, total, healthy) =
        added_all {E = l.Error}
          (nodes_ready number nodes
            ∷ node_pressure number nodes
            ∷ system_pods number pods
            ∷ namespace_exists l.namespace ensured
            ∷ [])
          (new_results "Cluster Health") in
      (
        r,
        rw (p, q) total,
        healthy
            ∙ rw
                (
                  nodes_blame nodes,
                  pressure_blame nodes,
                  system_blame pods,
                  namespace_blame l.namespace ensured,
                )
                (either_blame (count is_node_ready nodes == 0) (is_ok ensured)),
      )
