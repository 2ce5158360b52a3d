-- ===== src/Redis/Waiting.antt =====
-- How long src/infra/redis/cluster.rs waits for its pods, and what it does to a cluster that runs.
use analytics_hub.Prelude.{
  ℕ, zero, suc, ◌<◌, ◌≡◌, refl, ◌∙◌, String, true, false, List, ◌==◌, ok, err, arith,
}
use analytics_hub.Prelude.Text.{◌++◌, contains}
use analytics_hub.Cluster.{Pod}
use analytics_hub.Cluster.Shell.{Shell}
use analytics_hub.Redis.{ClusterConfig}
use analytics_hub.Redis.Cluster.{
  timeout, ready_pods, or_failed, list_pods, ready_or_later, wait_turns, wait_for_pods, says_ok,
  is_cluster_initialized, initialize_cluster,
}

module _ (sh : Shell) (sleep : ℕ → sh.State → sh.State) (config : ClusterConfig) where
  -- The state after a number of sleeps of five seconds each.
  abbrev pub slept : ℕ → sh.State → sh.State
  slept zero s = s
  slept (suc n) s = slept n (sleep 5 s)

  -- At each of the next sleeps the pods are listed, and another number of them is ready.
  abbrev pub NotReady : ℕ → sh.State → Type 0
  NotReady turns s =
      (i : ℕ)
      → i < turns
      → (pods : List Pod) × (sh.list_pods (slept i s) ≡ ok pods)
        × ((ready_pods config.service_name pods == config.total_nodes) ≡ false)

  turn_missed :
      (turns : ℕ) (s : sh.State) (pods : List Pod)
      → sh.list_pods s ≡ ok pods
      → (ready_pods config.service_name pods == config.total_nodes) ≡ false
      → wait_turns sh sleep config (suc turns) s ≡ wait_turns sh sleep config turns (sleep 5 s)
  unfolding wait_turns ready_or_later list_pods or_failed
  turn_missed turns s pods listed other = rw listed (rw other refl)

  turns_missed :
      (turns : ℕ) (s : sh.State)
      → NotReady turns s
      → wait_turns sh sleep config turns s ≡ (err timeout, slept turns s)
  unfolding wait_turns
  turns_missed zero s h = refl
  turns_missed (suc turns) s h =
      let (pods, listed, other) = h 0 (omega arith) in
      turn_missed turns s pods listed other
      ∙ turns_missed turns (sleep 5 s) (λ i l. h (suc i) (omega (arith, l)))

  -- Where at none of 60 looks exactly the configured number of pods is ready, more of them included,
  -- the wait ends with a timeout, after 60 sleeps of five seconds: one after each look.
  pub waits_sixty_times :
      (s : sh.State) → NotReady 60 s → wait_for_pods sh sleep config s ≡ (err timeout, slept 60 s)
  unfolding wait_for_pods
  waits_sixty_times s h = turns_missed 60 s h

  -- A cluster whose pods are ready and which says that its state is ok is left alone: it is asked,
  -- and not created again.
  pub initialized_left_alone :
      (number : ℕ → String) (s s' : sh.State) (pods : List Pod) (info : String)
      → sh.list_pods s ≡ ok pods
      → (ready_pods config.service_name pods == config.total_nodes) ≡ true
      → sh.exec_in_pod (config.service_name ++ "-0") "redis-cli cluster info" s ≡ (ok info, s')
      → contains "cluster_state:ok" info ≡ true
      → initialize_cluster sh sleep number config s ≡ (ok tt, s')
  unfolding initialize_cluster wait_for_pods wait_turns ready_or_later list_pods or_failed
      is_cluster_initialized says_ok
  initialized_left_alone number s s' pods info listed ready told says =
      rw listed (rw ready (rw told (rw says refl)))
