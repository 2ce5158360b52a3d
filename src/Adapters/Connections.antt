-- ===== src/Adapters/Connections.antt =====
-- Which adapters of src/adapters/mod.rs answer after a run of calls.
use analytics_hub.Prelude.{
  ℕ, ◌≡◌, refl, ap, ◌∙◌, String, Bool, true, false, List, [], ◌∷◌, map, if◌then◌else◌, is_ok,
}
use analytics_hub.Prelude.Int.{ℤ}
use analytics_hub.Prelude.Float.{FloatOps}
use analytics_hub.Adapters.{
  healthy, unhealthy, connect, disconnect, health_check, AdapterManager, new_manager, Adapter,
  the_observatory, the_costops, the_memory_graph, the_registry, the_config_manager, connected,
  set_connected, on, try_join, connect_all, disconnect_all, health_or, health_check_all,
}
use analytics_hub.Adapters.Gate.{when_connected}
use analytics_hub.Adapters.Observatory.{fetch_telemetry}
use analytics_hub.Adapters.Observatory.Types.{TelemetryQuery}
use analytics_hub.Adapters.CostOps.{fetch_cost_summary}
use analytics_hub.Adapters.CostOps.Types.{CostSummaryQuery}
use analytics_hub.Adapters.MemoryGraph.{fetch_context_lineage}
use analytics_hub.Adapters.MemoryGraph.Types.{LineageQuery}
use analytics_hub.Adapters.Registry.{fetch_model}
use analytics_hub.Adapters.ConfigManager.{fetch_analytics_parameters}

-- A call that may change a connection.
pub data Call : Type 0 where
  connects_all disconnects_all : Call
  connects disconnects : Adapter → Call

abbrev pub after : Call → AdapterManager → AdapterManager
after connects_all m = (connect_all m).1
after disconnects_all m = (disconnect_all m).1
after (connects a) m = (on a connect m).1
after (disconnects a) m = (on a disconnect m).1

-- The calls, the latest first, on a new manager.
abbrev pub run : List Call → AdapterManager
run [] = new_manager
run (c ∷ calls) = after c (run calls)

abbrev pub is_same : Adapter → Adapter → Bool
is_same the_observatory the_observatory = true
is_same the_costops the_costops = true
is_same the_memory_graph the_memory_graph = true
is_same the_registry the_registry = true
is_same the_config_manager the_config_manager = true
is_same a b = false

-- Whether the latest call that concerns an adapter has connected it.
abbrev pub latest_connects : Adapter → List Call → Bool
latest_connects a [] = false
latest_connects a (connects_all ∷ calls) = true
latest_connects a (disconnects_all ∷ calls) = false
latest_connects a (connects b ∷ calls) =
    let rest = latest_connects a calls in if is_same a b then true else rest
latest_connects a (disconnects b ∷ calls) =
    let rest = latest_connects a calls in if is_same a b then false else rest

connected-set :
    (a b : Adapter) (v : Bool) (m : AdapterManager)
    → connected a (set_connected b v m) ≡ (if is_same a b then v else connected a m)
unfolding connected set_connected
connected-set the_observatory the_observatory v m = refl
connected-set the_observatory b v m = refl
connected-set the_costops the_observatory v m = refl
connected-set the_costops b v m = refl
connected-set the_memory_graph the_observatory v m = refl
connected-set the_memory_graph b v m = refl
connected-set the_registry the_observatory v m = refl
connected-set the_registry b v m = refl
connected-set the_config_manager the_observatory v m = refl
connected-set the_config_manager b v m = refl

all_connected : (a : Adapter) (m : AdapterManager) → connected a (connect_all m).1 ≡ true
unfolding connect_all try_join on connect set_connected connected
all_connected the_observatory m = refl
all_connected a m = refl

all_disconnected : (a : Adapter) (m : AdapterManager) → connected a (disconnect_all m).1 ≡ false
unfolding disconnect_all try_join on disconnect set_connected connected
all_disconnected the_observatory m = refl
all_disconnected a m = refl

none_connected : (a : Adapter) → connected a new_manager ≡ false
unfolding connected new_manager
none_connected the_observatory = refl
none_connected a = refl

run-connected :
    (a : Adapter) (calls : List Call) → connected a (run calls) ≡ latest_connects a calls
unfolding on connect disconnect
run-connected a [] = none_connected a
run-connected a (connects_all ∷ calls) = all_connected a (run calls)
run-connected a (disconnects_all ∷ calls) = all_disconnected a (run calls)
run-connected a (connects b ∷ calls) =
    connected-set a b true (run calls)
    ∙ ap (λ x. if is_same a b then true else x) (run-connected a calls)
run-connected a (disconnects b ∷ calls) =
    connected-set a b false (run calls)
    ∙ ap (λ x. if is_same a b then false else x) (run-connected a calls)

reported :
    (name : String) (latency : ℕ) (now : ℤ) (b : Bool)
    → (health_or name (health_check name latency now b)).is_healthy ≡ b
unfolding health_or health_check healthy unhealthy
reported name latency now true = refl
reported name latency now false = refl

gated :
    {A : Type 0} (b : Bool) (message : String) (answer : A)
    → is_ok (when_connected b message answer) ≡ b
unfolding when_connected
gated true message answer = refl
gated false message answer = refl

abbrev pub adapters : List Adapter
adapters = the_observatory ∷ the_costops ∷ the_memory_graph ∷ the_registry ∷ the_config_manager ∷ []

-- After any run of connects and disconnects of single adapters and of all, each adapter is reported
-- healthy if, and only if, the latest call that concerns it has connected it.
pub health_follows_calls :
    (latency : Adapter → ℕ) (now : ℤ) (calls : List Call)
    → map (λ h. h.is_healthy) (health_check_all latency now (run calls))
      ≡ map (λ a. latest_connects a calls) adapters
unfolding health_check_all
health_follows_calls latency now calls =
    let follows = λ (a : Adapter) (name : String).
      reported name (latency a) now (connected a (run calls)) ∙ run-connected a calls in
    λ i.
      follows the_observatory "observatory" i
      ∷ follows the_costops "costops" i
      ∷ follows the_memory_graph "memory_graph" i
      ∷ follows the_registry "registry" i
      ∷ follows the_config_manager "config_manager" i
      ∷ []

module _ (f : FloatOps) (Json : Type 0) (fresh : String) (now : ℤ) where
  -- After a run of calls on a new manager an adapter answers its requests if, and only if, the
  -- latest call that concerns it has connected it: one request to each of the five adapters.
  pub answers_follow_calls :
      (calls : List Call) (t : TelemetryQuery) (c : CostSummaryQuery) (l : LineageQuery)
      (model_id : String)
      → (is_ok (fetch_telemetry f (connected the_observatory (run calls)) t)
          ≡ latest_connects the_observatory calls)
        × (is_ok (fetch_cost_summary f (connected the_costops (run calls)) fresh now c)
            ≡ latest_connects the_costops calls)
        × (is_ok (
              fetch_context_lineage f {Json = Json}
                (connected the_memory_graph (run calls))
                fresh
                now
                l)
            ≡ latest_connects the_memory_graph calls)
        × (is_ok (fetch_model f (connected the_registry (run calls)) now model_id)
            ≡ latest_connects the_registry calls)
        × (is_ok (fetch_analytics_parameters f (connected the_config_manager (run calls)) fresh now)
            ≡ latest_connects the_config_manager calls)
  unfolding fetch_telemetry fetch_cost_summary fetch_context_lineage fetch_model
      fetch_analytics_parameters
  answers_follow_calls calls t c l model_id = (
    gated _ _ _ ∙ run-connected the_observatory calls,
    gated _ _ _ ∙ run-connected the_costops calls,
    gated _ _ _ ∙ run-connected the_memory_graph calls,
    gated _ _ _ ∙ run-connected the_registry calls,
    gated _ _ _ ∙ run-connected the_config_manager calls,
  )
