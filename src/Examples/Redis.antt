-- ===== src/Examples/Redis.antt =====
-- A Redis cluster of one pod.
use analytics_hub.Prelude.{
  ◌+◌, ℕ, suc, ◌≡◌, refl, String, none, some, ◌&&◌, ◌==◌, List, [], ◌∷◌, if◌then◌else◌, ok, err,
}
use analytics_hub.Prelude.Dict.{str_eq}
use analytics_hub.Cluster.{Pod, phase_of}
use analytics_hub.Cluster.Shell.{Shell, is_running, has_prefix, running_pod}
use analytics_hub.Redis.{ClusterHealth, default_cluster}
use analytics_hub.Redis.Cluster.{timeout, ready_pods, wait_for_pods, verify_cluster}
use analytics_hub.Redis.Health.{last_state, last_slots, verify_cluster_verdict}
use analytics_hub.Redis.Waiting.{waits_sixty_times}

abbrev one_pod : List Pod
one_pod =
    record {
      name = some "redis-cluster-0";
      spec = none;
      status =
          some (record { phase = some "Running"; conditions = none; pod_ip = some "10.0.0.1" });
    }
    ∷ []

-- The state counts the seconds and the programs that ran.
abbrev redis_shell : Shell
redis_shell = record {
  State = ℕ × ℕ;
  Error = String;
  list_pods = λ s. ok one_pod;
  exec_in_pod = λ pod command s. (
    ok (if str_eq command "redis-cli cluster info" then "cluster_state:ok" else "a master"),
    (s.0, suc (s.1)),
  );
}

abbrev pass_seconds : ℕ → ℕ × ℕ → ℕ × ℕ
pass_seconds n s = (n + s.0, s.1)

one_runs : running_pod "redis-" one_pod ≡ some "redis-cluster-0"
unfolding running_pod has_prefix is_running phase_of
one_runs = refl

one_ready : ready_pods "redis-cluster" one_pod ≡ 1
unfolding ready_pods has_prefix is_running phase_of
one_ready = refl

-- The one line says that the state is ok, and nothing of the slots.
verify_cluster_verdict_example :
    (h : ClusterHealth) × (verify_cluster redis_shell pass_seconds
        (λ s. s)
        (λ s. none)
        (λ text. text ∷ [])
        (0, 0)
      ≡ (ok h, (0, 2)))
    × (h.healthy ≡ (
        str_eq (last_state (λ s. s) (λ s. none) "unknown" ("cluster_state:ok" ∷ [])) "ok"
        && last_slots (λ s. s) (λ s. none) 0 ("cluster_state:ok" ∷ []) == 16384))
verify_cluster_verdict_example =
    verify_cluster_verdict (λ s. s) (λ s. none) redis_shell pass_seconds (λ text. text ∷ []) (0, 0)
      (0, 1) (0, 2) one_pod "redis-cluster-0" "cluster_state:ok" "a master" refl one_runs refl refl

-- Of six nodes one is there.
waits_sixty_times_example :
    wait_for_pods redis_shell pass_seconds default_cluster (0, 0) ≡ (err timeout, (300, 0))
waits_sixty_times_example =
    waits_sixty_times redis_shell pass_seconds default_cluster (0, 0)
      (λ i l. (one_pod, refl, rw one_ready refl))
