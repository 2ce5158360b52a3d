-- ===== src/Examples/Adapters.antt =====
-- The adapters after all were connected and two of them disconnected.
use analytics_hub.Prelude.{ℕ, ◌≡◌, none, true, false, List, [], ◌∷◌, is_ok}
use analytics_hub.Prelude.Int.{pos}
use analytics_hub.Adapters.{
  the_observatory, the_costops, the_memory_graph, the_registry, the_config_manager, connected,
}
use analytics_hub.Adapters.Observatory.{fetch_telemetry}
use analytics_hub.Adapters.Observatory.Types.{TelemetryQuery}
use analytics_hub.Adapters.CostOps.{fetch_cost_summary}
use analytics_hub.Adapters.CostOps.Types.{CostSummaryQuery}
use analytics_hub.Adapters.MemoryGraph.{fetch_context_lineage}
use analytics_hub.Adapters.MemoryGraph.Types.{LineageQuery}
use analytics_hub.Adapters.Registry.{fetch_model}
use analytics_hub.Adapters.ConfigManager.{fetch_analytics_parameters}
use analytics_hub.Adapters.Connections.{
  Call, connects_all, disconnects, connects, run, answers_follow_calls,
}
use analytics_hub.Examples.Data.{hundredths}

abbrev two_dropped : List Call
two_dropped =
    connects the_registry ∷ disconnects the_costops ∷ disconnects the_registry ∷ connects_all ∷ []

abbrev any_telemetry : TelemetryQuery
any_telemetry = record {
  metric_names = none;
  start_time = none;
  end_time = none;
  model_ids = none;
  providers = none;
  limit = none;
}

abbrev any_costs : CostSummaryQuery
any_costs = record {
  start_time = none;
  end_time = none;
  providers = none;
  models = none;
  teams = none;
  granularity = none;
}

abbrev any_lineage : LineageQuery
any_lineage = record {
  context_id = none;
  session_id = none;
  start_time = none;
  end_time = none;
  min_depth = none;
  max_depth = none;
  include_content = false;
}

answers_follow_calls_example :
    (is_ok (fetch_telemetry hundredths (connected the_observatory (run two_dropped)) any_telemetry)
      ≡ true)
    × (is_ok (
          fetch_cost_summary hundredths
            (connected the_costops (run two_dropped))
            "id"
            (pos 0)
            any_costs)
        ≡ false)
    × (is_ok (
          fetch_context_lineage hundredths {Json = ℕ}
            (connected the_memory_graph (run two_dropped))
            "id"
            (pos 0)
            any_lineage)
        ≡ true)
    × (is_ok (fetch_model hundredths (connected the_registry (run two_dropped)) (pos 0) "gpt")
        ≡ true)
    × (is_ok (
          fetch_analytics_parameters hundredths
            (connected the_config_manager (run two_dropped))
            "id"
            (pos 0))
        ≡ true)
answers_follow_calls_example =
    answers_follow_calls hundredths ℕ "id" (pos 0) two_dropped any_telemetry any_costs any_lineage
      "gpt"
