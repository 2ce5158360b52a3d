-- ===== src/Validation/Reach.antt =====
-- When the validators of src/infra/validation that run programs call a category unhealthy.
use analytics_hub.Prelude.{
  ℕ, ◌≡◌, refl, ap, ◌∙◌, String, Option, some, none, Bool, true, false, not, ◌&&◌, List, [], ◌∷◌,
  Outcome, ok, err, is_ok, arith, All,
}
use analytics_hub.Prelude.Text.{contains}
use analytics_hub.Cluster.{Pod}
use analytics_hub.Command.{Output}
use analytics_hub.Validation.{
  ValidationCheck, ValidationResults, critical, important, new_check, new_results, pass, fail, warn,
  skip,
}
use analytics_hub.Validation.Blame.{blames, added, chosen_blame}
use analytics_hub.Validation.Listing.{Listing, of_answer}
use analytics_hub.Validation.Prerequisites.{
  Tools, kubectl_said, helm_said, access_said, check_kubectl, check_helm, check_cluster_access,
  validate_prerequisites,
}
use analytics_hub.Validation.Programs.{Programs, first_running, holds, in_pod, among, in_labelled}
use analytics_hub.Validation.Databases.{
  kafka_said, postgres_check, check_postgres_connectivity, check_database_exists,
  check_timescaledb_extension, check_redis_connectivity, check_kafka_connectivity,
  validate_databases,
}
use analytics_hub.Validation.Network.{
  dns_said, connection_said, ingress_said, check_dns_resolution, check_service_connectivity,
  check_ingress, validate_network,
}
use analytics_hub.Validation.Decisive.{Harmless, first_decides, holds_blame, in_labelled-Harmless}

-- The program ran and succeeded.
abbrev pub succeeded : {E : Type 0} → Outcome Output E → Bool
succeeded (ok o) = o.success
succeeded (err e) = false

module _ (t : Tools) where
  kubectl_blame :
      (o : Outcome Output t.Error)
      → blames (kubectl_said t (new_check "kubectl-installed" "Prerequisites" critical) o)
        ≡ not (succeeded o)
  unfolding kubectl_said pass fail
  kubectl_blame (ok o) = ground arith
  kubectl_blame (err e) = refl

  helm_blame :
      (o : Outcome Output t.Error)
      → blames (helm_said t (new_check "helm-installed" "Prerequisites" important) o) ≡ false
  unfolding helm_said pass warn
  helm_blame (ok o) = ground arith
  helm_blame (err e) = refl

  access_blame :
      (o : Outcome Output t.Error)
      → blames (access_said t (new_check "cluster-access" "Prerequisites" critical) o)
        ≡ not (succeeded o)
  unfolding access_said pass fail
  access_blame (ok o) = ground arith
  access_blame (err e) = refl

  abbrev pub is_installed : Bool
  is_installed = succeeded (t.output ("kubectl" ∷ "version" ∷ "--client" ∷ "--short" ∷ []))

  abbrev pub is_reached : Bool
  is_reached = succeeded (t.output ("kubectl" ∷ "cluster-info" ∷ []))

  -- The prerequisites are healthy if, and only if, both calls of kubectl succeed; helm may be missing.
  pub prerequisites_verdict : (validate_prerequisites t).healthy ≡ (is_installed && is_reached)
  unfolding validate_prerequisites check_kubectl check_helm check_cluster_access new_results
  prerequisites_verdict =
      rw
        (
          added (check_cluster_access t) _,
          added (check_helm t) _,
          added (check_kubectl t) _,
          access_blame (t.output ("kubectl" ∷ "cluster-info" ∷ [])),
          helm_blame (t.output ("helm" ∷ "version" ∷ "--short" ∷ [])),
          kubectl_blame (t.output ("kubectl" ∷ "version" ∷ "--client" ∷ "--short" ∷ [])),
        )
        (ground arith)

twice_not : (b : Bool) → not (not b) ≡ b
twice_not b = ground arith

kafka_blame :
    {E : Type 0}
    → (o : Outcome String E)
    → blames (kafka_said (new_check "kafka-connectivity" "Database Connectivity" important) o)
      ≡ false
unfolding kafka_said pass warn
kafka_blame (ok output) = refl
kafka_blame (err e) = refl

connection_blame :
    {E : Type 0}
    → (o : Outcome String E)
    → blames (connection_said (new_check "service-connectivity" "Network Connectivity" important) o)
      ≡ false
unfolding connection_said pass warn
connection_blame (ok output) = refl
connection_blame (err e) = refl

-- What `pg_isready` answers in the pod of TimescaleDB.
abbrev pub is_accepting : {E : Type 0} → Outcome String E → Bool
is_accepting (ok output) = contains "accepting connections" output
is_accepting (err e) = false

dns_blame :
    {E : Type 0}
    → (o : Outcome String E)
    → blames (dns_said (new_check "dns-resolution" "Network Connectivity" critical) o)
      ≡ not (is_ok o)
unfolding dns_said pass fail
dns_blame (ok output) = refl
dns_blame (err e) = refl

ingress_blame : (number : ℕ → String) (n : ℕ) → blames (ingress_said number n) ≡ false
unfolding ingress_said
ingress_blame number n = chosen_blame _ _ _ _

module _ (l : Listing) (p : Programs l.Error) where
  -- PostgreSQL accepts connections in the pod, where there is one.
  abbrev pub accepts : Option String → p.State → Bool
  accepts none s = true
  accepts (some pod) s = is_accepting (p.exec_in_pod pod "pg_isready -U postgres" s).0

  module _ (timescale redis kafka : List Pod)
      (timescale_listed : l.pods l.namespace (some "app=timescaledb") ≡ ok timescale)
      (redis_listed : l.pods l.namespace (some "app=redis") ≡ ok redis)
      (kafka_listed : l.pods l.namespace (some "app=kafka") ≡ ok kafka) where
    others-Harmless : All Harmless (
        check_database_exists l p
        ∷ check_timescaledb_extension l p
        ∷ check_redis_connectivity l p
        ∷ check_kafka_connectivity l p
        ∷ [])
    unfolding check_database_exists check_timescaledb_extension check_redis_connectivity
        check_kafka_connectivity kafka_said pass fail warn
    others-Harmless =
        let exists =
          in_labelled-Harmless l p _ _ _ _ _ timescale timescale_listed
            (λ a. holds_blame _ _ _ _ a refl refl refl) in
        let extension =
          in_labelled-Harmless l p _ _ _ _ _ timescale timescale_listed
            (λ a. holds_blame _ _ _ _ a refl refl refl) in
        let ping =
          in_labelled-Harmless l p _ _ _ _ _ redis redis_listed
            (λ a. holds_blame _ _ _ _ a refl refl refl) in
        (
          exists,
          (
            extension,
            (ping, (in_labelled-Harmless l p _ _ _ _ _ kafka kafka_listed kafka_blame, tt)),
          ),
        )

    abbrev postgres_judge : Outcome String l.Error → ValidationCheck
    postgres_judge =
        holds "accepting connections" (pass "PostgreSQL is accepting connections" postgres_check)
          (fail "PostgreSQL is not ready" postgres_check)
          (fail "Failed to check PostgreSQL connectivity" postgres_check)

    judge_blame : (a : Outcome String l.Error) → blames (postgres_judge a) ≡ not (is_accepting a)
    unfolding holds pass fail
    judge_blame (ok output) = ground arith
    judge_blame (err e) = refl

    in_pod_blame :
        (pod : Option String) (s : p.State)
        → (c : ValidationCheck) × ((in_pod l p "pg_isready -U postgres"
              "No TimescaleDB pod available" postgres_check postgres_judge pod s).0
            ≡ ok c)
          × (blames c ≡ not (accepts pod s))
    unfolding in_pod skip
    in_pod_blame none s = (_, refl, refl)
    in_pod_blame (some pod) s = (_, refl, judge_blame _)

    -- Where the pods can be listed, the databases are healthy if, and only if, PostgreSQL accepts
    -- connections in the first pod of TimescaleDB that runs, or there is none, whatever Redis, Kafka
    -- and the other checks of TimescaleDB say.
    pub databases_verdict :
        (s : p.State)
        → (r : ValidationResults) × ((validate_databases l p s).0 ≡ ok r)
          × (r.healthy ≡ accepts (first_running timescale) s)
    unfolding validate_databases check_postgres_connectivity in_labelled among
    databases_verdict s =
        let (c, q, b) = in_pod_blame (first_running timescale) s in
        let (r, total, e) =
          first_decides (check_postgres_connectivity l p) _ "Database Connectivity" s c
            (rw timescale_listed q) others-Harmless in
        (r, total, e ∙ ap not b ∙ twice_not _)

  -- Where the application's pods and the ingresses can be listed, the network is healthy if, and only
  -- if, the temporary pod resolves a name.
  pub network_verdict :
      (number : ℕ → String) (apps : List Pod) (ingresses : ℕ)
      → l.pods l.namespace (some "app=analytics-api") ≡ ok apps
      → l.ingresses ≡ ok ingresses
      → (s : p.State)
      → (r : ValidationResults) × ((validate_network number l p s).0 ≡ ok r)
        × (r.healthy
            ≡ is_ok
                (p.run_pod_command "dns-test" "busybox:latest"
                  ("nslookup" ∷ "kubernetes.default" ∷ [])
                  s).0)
  unfolding validate_network check_service_connectivity check_ingress of_answer check_dns_resolution
  network_verdict number apps ingresses listed counted s =
      let (r, total, e) =
        first_decides (check_dns_resolution number l p) _ "Network Connectivity" s _ refl (
          in_labelled-Harmless l p _ _ _ _ _ apps listed connection_blame,
          ((λ s'. rw counted (_, refl, ingress_blame number ingresses)), tt),
        ) in
      (r, total, e ∙ ap not (dns_blame _) ∙ twice_not _)
