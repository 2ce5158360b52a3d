-- ===== src/Adapters/MemoryGraph/Types.antt =====
-- The types of src/adapters/memory_graph.rs. `F` is the type of f64 and `Json` that of JSON
-- values; times are nanoseconds since the epoch.
use analytics_hub.Prelude.{ℕ, String, Option, Bool, List}
use analytics_hub.Prelude.Int.{ℤ}
use analytics_hub.Prelude.Dict.{Dict}

pub record MemoryGraphConfig : Type 0 where
  pub endpoint : String
  pub api_key : Option String
  pub timeout_secs : ℕ

pub data NodeType : Type 0 where
  user_message assistant_response system_prompt tool_call tool_result context_injection summary :
      NodeType

pub record LineageNode (Json : Type 0) : Type 0 where
  pub node_id : String
  pub node_type : NodeType
  pub created_at : ℤ
  pub content_hash : String
  pub token_count : ℕ
  pub attributes : Dict Json

pub data EdgeType : Type 0 where
  follows references summarizes derived_from tool_invocation : EdgeType

pub record LineageEdge (F : Type 0) : Type 0 where
  pub edge_id : String
  pub source_node_id : String
  pub target_node_id : String
  pub edge_type : EdgeType
  pub weight : F
  pub created_at : ℤ

pub record LineageMetadata (F : Type 0) : Type 0 where
  pub total_tokens : ℕ
  pub total_interactions : ℕ
  pub active_branches : ℕ
  pub compression_ratio : F

pub record ContextLineage (F : Type 0) (Json : Type 0) : Type 0 where
  pub lineage_id : String
  pub root_context_id : String
  pub created_at : ℤ
  pub depth : ℕ
  pub nodes : List (LineageNode Json)
  pub edges : List (LineageEdge F)
  pub metadata : LineageMetadata F

pub record GraphStatistics (F : Type 0) : Type 0 where
  pub node_count : ℕ
  pub edge_count : ℕ
  pub avg_degree : F
  pub clustering_coefficient : F
  pub diameter : ℕ
  pub density : F

pub record TopicCluster (F : Type 0) : Type 0 where
  pub cluster_id : String
  pub topic : String
  pub relevance_score : F
  pub node_ids : List String
  pub keywords : List String

pub record EntityReference : Type 0 where
  pub entity_id : String
  pub entity_type : String
  pub name : String
  pub first_mentioned : ℤ
  pub mention_count : ℕ
  pub node_ids : List String

pub record InteractionGraph (F : Type 0) : Type 0 where
  pub graph_id : String
  pub session_id : String
  pub created_at : ℤ
  pub last_updated : ℤ
  pub statistics : GraphStatistics F
  pub topics : List (TopicCluster F)
  pub entities : List EntityReference

pub data MemoryType : Type 0 where
  short_term long_term working episodic semantic : MemoryType

pub record ActiveMemory (F : Type 0) : Type 0 where
  pub memory_id : String
  pub memory_type : MemoryType
  pub content_preview : String
  pub token_count : ℕ
  pub relevance_score : F
  pub last_accessed : ℤ
  pub access_count : ℕ

pub record RetrievalStats (F : Type 0) : Type 0 where
  pub total_retrievals : ℕ
  pub avg_latency_ms : F
  pub cache_hit_rate : F
  pub relevance_avg : F

pub record MemorySnapshot (F : Type 0) : Type 0 where
  pub snapshot_id : String
  pub session_id : String
  pub created_at : ℤ
  pub context_window_tokens : ℕ
  pub summarized_tokens : ℕ
  pub active_memories : List (ActiveMemory F)
  pub retrieval_stats : RetrievalStats F

pub record LineageQuery : Type 0 where
  pub context_id : Option String
  pub session_id : Option String
  pub start_time : Option ℤ
  pub end_time : Option ℤ
  pub min_depth : Option ℕ
  pub max_depth : Option ℕ
  pub include_content : Bool

pub record MemoryEfficiency (F : Type 0) : Type 0 where
  pub avg_compression_ratio : F
  pub cache_hit_rate : F
  pub retrieval_latency_p50_ms : F
  pub retrieval_latency_p99_ms : F

pub record GraphAnalytics (F : Type 0) : Type 0 where
  pub period_start : ℤ
  pub period_end : ℤ
  pub total_sessions : ℕ
  pub total_nodes_created : ℕ
  pub total_edges_created : ℕ
  pub avg_session_depth : F
  pub avg_session_tokens : F
  pub top_topics : List String
  pub memory_efficiency : MemoryEfficiency F
