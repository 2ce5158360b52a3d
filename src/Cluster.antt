-- ===== src/Cluster.antt =====
-- src/infra/k8s: what the health checks read of a cluster. Numbers of replicas are `i32`.
pub mod Health
pub mod Verdict
pub mod Shell
use analytics_hub.Prelude.{
  ℕ, String, Option, none, some, Bool, true, false, ◌&&◌, ◌||◌, List, [], ◌∷◌, Outcome, ok, err,
}
use analytics_hub.Prelude.Dict.{Dict, str_eq}
use analytics_hub.Prelude.Int.{ℤ, pos, leb_ℤ}

pub record PodCondition : Type 0 where
  pub kind : String
  pub status : String

pub record PodStatus : Type 0 where
  pub phase : Option String
  pub conditions : Option (List PodCondition)
  pub pod_ip : Option String

-- What is asked of a container: whether it is privileged, its requests and its limits.
pub record Container : Type 0 where
  pub privileged : Option Bool
  pub requests : Option (Dict String)
  pub limits : Option (Dict String)

pub record PodSpec : Type 0 where
  pub run_as_user : Option ℤ
  pub containers : List Container

pub record Pod : Type 0 where
  pub name : Option String
  pub spec : Option PodSpec
  pub status : Option PodStatus

pub record DeploymentStatus : Type 0 where
  pub ready_replicas : Option ℤ

pub record DeploymentSpec : Type 0 where
  pub replicas : Option ℤ

pub record Deployment : Type 0 where
  pub spec : Option DeploymentSpec
  pub status : Option DeploymentStatus

-- The API server, as the client of the hub uses it.
pub record ApiServer : Type 1 where
  pub State : Type 0
  pub ApiError : Type 0
  pub Service : Type 0
  pub get_namespace : String → State → Outcome (Unit {0}) ApiError
  pub create_namespace : String → State → Outcome (Unit {0}) ApiError × State
  pub list_pods : String → State → Outcome (List Pod) ApiError
  pub list_deployments : String → State → Outcome (List Deployment) ApiError
  pub list_services : String → State → Outcome (List Service) ApiError

module _ (server : ApiServer) where
  -- The branches of `ensure_namespace`: an error of `get` is taken for a missing namespace.
  unfoldable pub create_missing :
      Outcome (Unit {0}) server.ApiError
      → String
      → server.State
      → Outcome (Unit {0}) server.ApiError × server.State
  create_missing (ok u) namespace s = (ok tt, s)
  create_missing (err e) namespace s = server.create_namespace namespace s

  unfoldable pub ensure_namespace :
      String → server.State → Outcome (Unit {0}) server.ApiError × server.State
  ensure_namespace namespace s = create_missing (server.get_namespace namespace s) namespace s

unfoldable pub is_ready_condition : PodCondition → Bool
is_ready_condition c = str_eq c.kind "Ready" && str_eq c.status "True"

unfoldable pub any_ready : List PodCondition → Bool
any_ready [] = false
any_ready (c ∷ cs) = is_ready_condition c || any_ready cs

unfoldable pub conditions_ready : Option (List PodCondition) → Bool
conditions_ready none = false
conditions_ready (some cs) = any_ready cs

unfoldable pub status_ready : Option PodStatus → Bool
status_ready none = false
status_ready (some status) = conditions_ready status.conditions

unfoldable pub is_pod_ready : Pod → Bool
is_pod_ready pod = status_ready pod.status

unfoldable pub phase_of : Option PodStatus → Option String
phase_of none = none
phase_of (some status) = status.phase

unfoldable pub phase_or_unknown : Option String → String
phase_or_unknown none = "Unknown"
phase_or_unknown (some phase) = phase

unfoldable pub get_pod_phase : Pod → String
get_pod_phase pod = phase_or_unknown (phase_of pod.status)

-- A number of replicas, or what stands for it where it is missing.
unfoldable pub replicas_or : ℤ → Option ℤ → ℤ
replicas_or n none = n
replicas_or n (some replicas) = replicas

-- `d.spec.as_ref().and_then(|s| s.replicas).unwrap_or(1)`
unfoldable pub desired : Option DeploymentSpec → ℤ
desired none = pos 1
desired (some spec) = replicas_or (pos 1) spec.replicas

unfoldable pub replicas_ready : Option DeploymentSpec → Option DeploymentStatus → Bool
replicas_ready spec none = false
replicas_ready spec (some status) = leb_ℤ (desired spec) (replicas_or (pos 0) status.ready_replicas)

unfoldable pub is_deployment_ready : Deployment → Bool
is_deployment_ready d = replicas_ready d.spec d.status
