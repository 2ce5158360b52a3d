-- ===== src/Analytics/Correlation.antt =====
-- src/analytics/correlation_engine.rs, with `store_correlation` of src/database/mod.rs and the
-- table `correlations` of src/database/schema.rs. The identifier and the time that a correlation
-- gets are drawn when it is made: `Draws` is what is drawn for each type, source and target in one
-- call.
pub mod Detection
pub mod Process
pub mod Symmetry
pub mod Order
pub mod Run
pub mod Kinds
pub mod Links
pub mod Buffer
pub mod Stored
pub mod Refused
use analytics_hub.Prelude.{
  ℕ, suc, ◌+◌, ◌/◌, String, Option, none, some, Bool, true, false, ◌&&◌, List, [], ◌∷◌, ◌++◌, map,
  length, leb, ltb, ◌==◌, if◌then◌else◌, Outcome, ok, err, ◌>>=◌,
}
use analytics_hub.Prelude.Int.{ℤ, pos, negsuc, ltb_ℤ, leb_ℤ, sub_ℤ, add_ℤ, abs_ℤ, div_ℕ, mul_ℕ}
use analytics_hub.Prelude.Dict.{Dict}
use analytics_hub.Prelude.IdMap.{IdMap, lookup_id, insert_id, retain}
use analytics_hub.Prelude.Float.{FloatOps}
use analytics_hub.Schema.Event.{
  SourceModule, llm_observatory, llm_sentinel, llm_cost_ops, llm_governance_dashboard, llm_registry,
  llm_policy_engine, llm_analytics_hub, EventType, AnalyticsEvent,
}
use analytics_hub.Storage.{DbError, unavailable, unique_violation, Table, has}

pub data CorrelationType : Type 0 where
  causal temporal pattern_correlation anomaly cost security performance compliance : CorrelationType

unfoldable pub correlation_name : CorrelationType → String
correlation_name causal = "causal"
correlation_name temporal = "temporal"
correlation_name pattern_correlation = "pattern"
correlation_name anomaly = "anomaly"
correlation_name cost = "cost"
correlation_name security = "security"
correlation_name performance = "performance"
correlation_name compliance = "compliance"

-- The window is the nanoseconds of a `Duration`.
pub record CorrelationConfig (F : Type 0) : Type 0 where
  pub time_window : ℤ
  pub min_strength : F
  pub max_buffer_size : ℕ

pub record BufferedEvent : Type 0 where
  pub event_id : ℕ
  pub timestamp : ℤ
  pub source_module : SourceModule
  pub event_type : EventType
  pub correlation_id : Option ℕ
  pub parent_event_id : Option ℕ

pub record Correlation (F : Type 0) : Type 0 where
  pub correlation_id : ℕ
  pub correlation_type : CorrelationType
  pub source_event_id : ℕ
  pub target_event_id : ℕ
  pub strength : F
  pub metadata : Dict String
  pub detected_at : ℤ

pub record CorrelationEngine (F : Type 0) : Type 0 where
  pub event_buffer : IdMap BufferedEvent
  pub correlations : IdMap (List (Correlation F))

pub record CorrelationStats : Type 0 where
  pub buffered_events : ℕ
  pub total_correlations : ℕ

-- `Uuid::new_v4()` and `Utc::now()`.
pub record Draws : Type 0 where
  pub new_v4 : CorrelationType → ℕ → ℕ → ℕ
  pub now : CorrelationType → ℕ → ℕ → ℤ

-- The row of a correlation, but for the server's time of its insertion.
pub record CorrelationRow (F : Type 0) : Type 0 where
  pub correlation_id : ℕ
  pub correlation_type : String
  pub source_event_id : ℕ
  pub target_event_id : ℕ
  pub strength : F
  pub metadata : Dict String

-- The tables: `correlations` refers to `events` by two foreign keys.
pub record Tables (P F : Type 0) : Type 0 where
  pub events : Table P
  pub correlations : List (CorrelationRow F)

-- The engine and the database it writes to.
pub record World (P F : Type 0) : Type 0 where
  pub engine : CorrelationEngine F
  pub tables : Tables P F

pub data StoreError : Type 0 where
  refused : DbError → StoreError
  foreign_key_violation : StoreError

-- Which of the statements of a call fail for reasons outside the program.
pub record CorrelationFaults : Type 0 where
  pub query_fails : Bool
  pub insert_fails : ℕ → Bool

abbrev module_index : SourceModule → ℕ
module_index llm_observatory = 0
module_index llm_sentinel = 1
module_index llm_cost_ops = 2
module_index llm_governance_dashboard = 3
module_index llm_registry = 4
module_index llm_policy_engine = 5
module_index llm_analytics_hub = 6

-- `==` of `SourceModule`.
abbrev pub module_eq : SourceModule → SourceModule → Bool
module_eq m n = module_index m == module_index n

-- `==` of `EventType` with a constant.
abbrev pub is_cost : EventType → Bool
is_cost EventType.cost = true
is_cost _ = false

abbrev pub is_security : EventType → Bool
is_security EventType.security = true
is_security _ = false

abbrev pub is_telemetry : EventType → Bool
is_telemetry EventType.telemetry = true
is_telemetry _ = false

abbrev pub is_governance : EventType → Bool
is_governance EventType.governance = true
is_governance _ = false

-- `Duration::num_seconds`, which rounds towards 0.
abbrev pub num_seconds : ℤ → ℤ
num_seconds d = div_ℕ d 1000000000

-- The seconds between two times: `(a - b).num_seconds().abs()`.
abbrev pub seconds_apart : ℤ → ℤ → ℕ
seconds_apart a b = abs_ℤ (num_seconds (sub_ℤ a b))

abbrev pub neg_ℤ : ℤ → ℤ
neg_ℤ d = sub_ℤ (pos 0) d
