-- ===== src/Redis/Cluster.antt =====
-- src/infra/redis/cluster.rs: creating and verifying the cluster, in its pods. `lines` is the standard
-- library's, `number` writes numbers, and `sleep` passes a number of seconds.
use analytics_hub.Prelude.{
  ℕ, zero, suc, String, Option, none, some, Bool, true, false, ◌&&◌, List, [], ◌∷◌, length, count,
  ◌==◌, if◌then◌else◌, Outcome, ok, err,
}
use analytics_hub.Prelude.Text.{◌++◌, contains}
use analytics_hub.Prelude.Effects.{Effect, pure, raise, ◌>>=◌, ◌>>◌}
use analytics_hub.Cluster.{Pod, PodStatus, phase_of}
use analytics_hub.Cluster.Shell.{Shell, is_running, has_prefix, running_pod}
use analytics_hub.Redis.{
  ClusterConfig, ClusterHealth, new_redis_health, parse_cluster_info, parse_cluster_nodes, judge,
}

pub data ClusterError (E : Type 0) : Type 0 where
  failed : E → ClusterError E
  timeout no_running_pod : ClusterError E
  expected_pods : ℕ → ℕ → ClusterError E

unfoldable pub ip_of : Option PodStatus → Option String
ip_of none = none
ip_of (some status) = status.pod_ip

unfoldable pub cons_ip : Option String → List String → List String
cons_ip none ips = ips
cons_ip (some ip) ips = ip ∷ ips

unfoldable pub pod_ips : List Pod → List String
pod_ips [] = []
pod_ips (p ∷ pods) =
    let rest = pod_ips pods in
    if has_prefix "redis-" p.name then cons_ip (ip_of p.status) rest else rest

-- The addresses with their port, joined by spaces.
unfoldable pub node_list : List String → String
node_list [] = ""
node_list (ip ∷ []) = ip ++ ":6379"
node_list (ip ∷ next ∷ ips) = ip ++ ":6379 " ++ node_list (next ∷ ips)

unfoldable pub ready_pods : String → List Pod → ℕ
ready_pods service pods =
    count (λ p. has_prefix service p.name && is_running (phase_of p.status)) pods

module _ (sh : Shell) (sleep : ℕ → sh.State → sh.State) where
  abbrev pub Manage : Type 0 → Type 0
  Manage A = Effect sh.State (ClusterError sh.Error) A

  unfoldable pub or_failed : {A : Type 0} → Outcome A sh.Error → Manage A
  or_failed (ok a) = pure a
  or_failed (err e) = raise (failed e)

  unfoldable pub list_pods : Manage (List Pod)
  list_pods s = or_failed (sh.list_pods s) s

  unfoldable pub execute_in : String → String → Manage String
  execute_in pod command s = let (answer, s') = sh.exec_in_pod pod command s in or_failed answer s'

  -- The end of one attempt; `later` is the attempts after it.
  unfoldable pub ready_or_later : Bool → Manage (Unit {0}) → Manage (Unit {0})
  ready_or_later true later s = (ok tt, s)
  ready_or_later false later s = later (sleep 5 s)

  unfoldable pub wait_turns : ClusterConfig → ℕ → Manage (Unit {0})
  wait_turns config zero = raise timeout
  wait_turns config (suc turns) = do
    pods ← list_pods
    ready_or_later (ready_pods config.service_name pods == config.total_nodes)
        (wait_turns config turns)

  -- The attempts are 1 to 60.
  unfoldable pub wait_for_pods : ClusterConfig → Manage (Unit {0})
  wait_for_pods config = wait_turns config 60

  unfoldable pub says_ok : Outcome String sh.Error → Bool
  says_ok (ok output) = contains "cluster_state:ok" output
  says_ok (err e) = false

  unfoldable pub is_cluster_initialized : ClusterConfig → Manage Bool
  is_cluster_initialized config s =
      let (answer, s') = sh.exec_in_pod (config.service_name ++ "-0") "redis-cli cluster info" s in
      (ok (says_ok answer), s')

  module _ (number : ℕ → String) where
    unfoldable pub create_cluster : List String → ClusterConfig → Manage (Unit {0})
    create_cluster ips config =
        execute_in (config.service_name ++ "-0") (
          "redis-cli --cluster create "
          ++ node_list ips
          ++ " --cluster-replicas "
          ++ number config.replicas_per_master
          ++ " --cluster-yes")
        >> pure tt

    unfoldable pub create_on : ClusterConfig → List Pod → Manage (Unit {0})
    create_on config pods =
        let ips = pod_ips pods in
        if length ips == config.total_nodes
        then create_cluster ips config
        else raise (expected_pods config.total_nodes (length ips))

    unfoldable pub initialize_cluster : ClusterConfig → Manage (Unit {0})
    initialize_cluster config = do
      wait_for_pods config
      initialized ← is_cluster_initialized config
      if initialized then pure tt else (list_pods >>= create_on config)

  unfoldable pub found_redis_pod : Option String → Manage String
  found_redis_pod none = raise no_running_pod
  found_redis_pod (some name) = pure name

  unfoldable pub get_redis_pod : Manage String
  get_redis_pod = list_pods >>= λ pods. found_redis_pod (running_pod "redis-" pods)

  module _ (trim : String → String) (parse_usize : String → Option ℕ)
      (lines : String → List String) where
    unfoldable pub verify_cluster : Manage ClusterHealth
    verify_cluster = do
      pod_name ← get_redis_pod
      cluster_info ← execute_in pod_name "redis-cli cluster info"
      cluster_nodes ← execute_in pod_name "redis-cli cluster nodes"
      pure (
          judge (
            parse_cluster_nodes (lines cluster_nodes)
              (parse_cluster_info trim parse_usize (lines cluster_info) new_redis_health)))
