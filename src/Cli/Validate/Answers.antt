-- ===== src/Cli/Validate/Answers.antt =====
-- What the validators of src/infra/validation are answered where no request fails.
use analytics_hub.Prelude.{ℕ, ◌≡◌, String, Option, some, none, List, ok}
use analytics_hub.Cluster.{Pod}
use analytics_hub.Validation.Listing.{Listing, Node}

-- The cluster answers each request for a list.
pub record Answered (l : Listing) : Type 0 where
  pub nodes : List Node
  pub system : List Pod
  pub apps : List Pod
  pub timescale : List Pod
  pub redis : List Pod
  pub kafka : List Pod
  pub all : List Pod
  pub metrics : List Pod
  pub services : ℕ
  pub policies : ℕ
  pub budgets : ℕ
  pub autoscalers : ℕ
  pub ingresses : ℕ
  pub kinds : List (Option String)
  pub nodes_listed : l.nodes ≡ ok nodes
  pub system_listed : l.pods "kube-system" none ≡ ok system
  pub apps_listed : l.pods l.namespace (some "app=analytics-api") ≡ ok apps
  pub timescale_listed : l.pods l.namespace (some "app=timescaledb") ≡ ok timescale
  pub redis_listed : l.pods l.namespace (some "app=redis") ≡ ok redis
  pub kafka_listed : l.pods l.namespace (some "app=kafka") ≡ ok kafka
  pub all_listed : l.pods l.namespace none ≡ ok all
  pub metrics_listed : l.pods "kube-system" (some "k8s-app=metrics-server") ≡ ok metrics
  pub services_counted : l.services ≡ ok services
  pub policies_counted : l.network_policies ≡ ok policies
  pub budgets_counted : l.disruption_budgets ≡ ok budgets
  pub autoscalers_counted : l.autoscalers ≡ ok autoscalers
  pub ingresses_counted : l.ingresses ≡ ok ingresses
  pub kinds_listed : l.secret_types ≡ ok kinds
