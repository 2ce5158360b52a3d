-- ===== src/Adapters/MemoryGraph.antt =====
-- src/adapters/memory_graph.rs: the answers of the adapter, placeholders in the source. `fresh` is
-- the text of a new UUID; `now` is the clock, read once for an answer.
pub mod Types
use analytics_hub.Prelude.{ℕ, String, Option, Bool, Outcome, []}
use analytics_hub.Prelude.Int.{ℤ}
use analytics_hub.Prelude.Float.{FloatOps}
use analytics_hub.Adapters.Gate.{when_connected, or_else}
use analytics_hub.Adapters.MemoryGraph.Types.{
  MemoryGraphConfig, ContextLineage, InteractionGraph, MemorySnapshot, LineageQuery, GraphAnalytics,
}

-- `from_env`; `env` looks up a variable and `parse_u64` reads a number.
unfoldable pub from_env : (String → Option String) → (String → Option ℕ) → MemoryGraphConfig
from_env env parse_u64 = record {
  endpoint = or_else (env "MEMORY_GRAPH_ENDPOINT") "http://localhost:8083";
  api_key = env "MEMORY_GRAPH_API_KEY";
  timeout_secs = or_else (parse_u64 (or_else (env "MEMORY_GRAPH_TIMEOUT_SECS") "30")) 30;
}

module _ (f : FloatOps) where
  unfoldable pub fetch_context_lineage :
      {Json : Type 0} → Bool → String → ℤ → LineageQuery → Outcome (ContextLineage f.F Json) String
  fetch_context_lineage connected fresh now query =
      when_connected connected "Memory-Graph adapter not connected" (record {
        lineage_id = fresh;
        root_context_id = (or_else query.context_id "root");
        created_at = now;
        depth = 0;
        nodes = [];
        edges = [];
        metadata = (record {
          total_tokens = 0;
          total_interactions = 0;
          active_branches = 0;
          compression_ratio = (f.of_nat 1);
        });
      })

  unfoldable pub fetch_interaction_graph :
      Bool → String → ℤ → String → Outcome (InteractionGraph f.F) String
  fetch_interaction_graph connected fresh now session_id =
      when_connected connected "Memory-Graph adapter not connected" (record {
        graph_id = fresh;
        session_id = session_id;
        created_at = now;
        last_updated = now;
        statistics = (record {
          node_count = 0;
          edge_count = 0;
          avg_degree = (f.of_nat 0);
          clustering_coefficient = (f.of_nat 0);
          diameter = 0;
          density = (f.of_nat 0);
        });
        topics = [];
        entities = [];
      })

  unfoldable pub fetch_memory_snapshot :
      Bool → String → ℤ → String → Outcome (MemorySnapshot f.F) String
  fetch_memory_snapshot connected fresh now session_id =
      when_connected connected "Memory-Graph adapter not connected" (record {
        snapshot_id = fresh;
        session_id = session_id;
        created_at = now;
        context_window_tokens = 0;
        summarized_tokens = 0;
        active_memories = [];
        retrieval_stats = (record {
          total_retrievals = 0;
          avg_latency_ms = (f.of_nat 0);
          cache_hit_rate = (f.of_nat 0);
          relevance_avg = (f.of_nat 0);
        });
      })

  unfoldable pub fetch_graph_analytics : Bool → ℤ → ℤ → Outcome (GraphAnalytics f.F) String
  fetch_graph_analytics connected start end =
      when_connected connected "Memory-Graph adapter not connected" (record {
        period_start = start;
        period_end = end;
        total_sessions = 0;
        total_nodes_created = 0;
        total_edges_created = 0;
        avg_session_depth = (f.of_nat 0);
        avg_session_tokens = (f.of_nat 0);
        top_topics = [];
        memory_efficiency = (record {
          avg_compression_ratio = (f.of_nat 0);
          cache_hit_rate = (f.of_nat 0);
          retrieval_latency_p50_ms = (f.of_nat 0);
          retrieval_latency_p99_ms = (f.of_nat 0);
        });
      })
