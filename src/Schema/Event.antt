-- ===== src/Schema/Event.antt =====
-- src/schemas/events.rs: the fields that every event has. A `Uuid` is a 128-bit number, and a
-- `DateTime<Utc>` the nanoseconds since the epoch. The type of the
-- payload is a parameter.
use analytics_hub.Prelude.{ℕ, ◌/◌, String, Option}
use analytics_hub.Prelude.Int.{ℤ, pos, negsuc}
use analytics_hub.Prelude.Dict.{Dict}

pub data SourceModule : Type 0 where
  llm_observatory llm_sentinel llm_cost_ops llm_governance_dashboard llm_registry llm_policy_engine
        llm_analytics_hub :
      SourceModule

pub data EventType : Type 0 where
  telemetry security cost governance lifecycle audit alert : EventType

pub data Severity : Type 0 where
  debug info warning error critical : Severity

pub record CommonEventFields : Type 0 where
  pub event_id : ℕ
  pub timestamp : ℤ
  pub source_module : SourceModule
  pub event_type : EventType
  pub correlation_id : Option ℕ
  pub parent_event_id : Option ℕ
  pub schema_version : String
  pub severity : Severity
  pub environment : String
  pub tags : Dict String

pub record AnalyticsEvent (P : Type 0) : Type 0 where
  pub common : CommonEventFields
  pub payload : P

-- `DateTime::timestamp`: whole seconds since the epoch, rounded down.
abbrev pub seconds : ℤ → ℤ
seconds (pos n) = pos (n / 1000000000)
seconds (negsuc n) = negsuc (n / 1000000000)
