-- ===== src/Adapters/Observatory/Types.antt =====
-- The types of src/adapters/observatory.rs. `F` is the type of f64 and `Json` that of JSON
-- values; times are nanoseconds since the epoch.
use analytics_hub.Prelude.{ℕ, String, Option, List}
use analytics_hub.Prelude.Int.{ℤ}
use analytics_hub.Prelude.Dict.{Dict}

pub record ObservatoryConfig : Type 0 where
  pub endpoint : String
  pub api_key : Option String
  pub timeout_secs : ℕ
  pub batch_size : ℕ

pub record TelemetryPoint (F : Type 0) : Type 0 where
  pub timestamp : ℤ
  pub metric_name : String
  pub value : F
  pub unit : String
  pub tags : Dict String
  pub model_id : Option String
  pub provider : Option String

pub data TraceStatus : Type 0 where
  trace_ok error timeout : TraceStatus

pub record TokenUsage : Type 0 where
  pub prompt_tokens : ℕ
  pub completion_tokens : ℕ
  pub total_tokens : ℕ

pub record UsageTrace (Json : Type 0) : Type 0 where
  pub trace_id : String
  pub span_id : String
  pub parent_span_id : Option String
  pub operation_name : String
  pub start_time : ℤ
  pub end_time : ℤ
  pub duration_ms : ℕ
  pub status : TraceStatus
  pub attributes : Dict Json
  pub token_usage : Option TokenUsage

pub record TimeRange : Type 0 where
  pub start : ℤ
  pub end : ℤ

pub record DataPoint (F : Type 0) : Type 0 where
  pub timestamp : ℤ
  pub value : F

pub record MetricAggregations (F : Type 0) : Type 0 where
  pub min : F
  pub max : F
  pub avg : F
  pub p50 : F
  pub p95 : F
  pub p99 : F
  pub count : ℕ

pub record PerformanceMetrics (F : Type 0) : Type 0 where
  pub metric_id : String
  pub measurement : String
  pub time_range : TimeRange
  pub data_points : List (DataPoint F)
  pub aggregations : MetricAggregations F

pub record TelemetryQuery : Type 0 where
  pub metric_names : Option (List String)
  pub start_time : Option ℤ
  pub end_time : Option ℤ
  pub model_ids : Option (List String)
  pub providers : Option (List String)
  pub limit : Option ℕ

pub record TraceQuery : Type 0 where
  pub trace_ids : Option (List String)
  pub operation_names : Option (List String)
  pub start_time : Option ℤ
  pub end_time : Option ℤ
  pub min_duration_ms : Option ℕ
  pub status : Option TraceStatus
  pub limit : Option ℕ
