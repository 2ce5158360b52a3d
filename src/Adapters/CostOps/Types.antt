-- ===== src/Adapters/CostOps/Types.antt =====
-- The types of src/adapters/costops.rs. `F` is the type of f64 and `Json` that of JSON
-- values; times are nanoseconds since the epoch.
use analytics_hub.Prelude.{ℕ, String, Option, List}
use analytics_hub.Prelude.Int.{ℤ}
use analytics_hub.Prelude.Dict.{Dict}

pub record CostOpsConfig : Type 0 where
  pub endpoint : String
  pub api_key : Option String
  pub timeout_secs : ℕ

pub record CostBreakdown (F : Type 0) : Type 0 where
  pub by_provider : Dict F
  pub by_model : Dict F
  pub by_operation : Dict F
  pub by_team : Dict F

pub data ConsumerType : Type 0 where
  user team application pipeline : ConsumerType

pub record CostConsumer (F : Type 0) : Type 0 where
  pub consumer_id : String
  pub consumer_type : ConsumerType
  pub name : String
  pub cost_usd : F
  pub percentage : F

pub record CostSummary (F : Type 0) : Type 0 where
  pub summary_id : String
  pub period_start : ℤ
  pub period_end : ℤ
  pub total_cost_usd : F
  pub breakdown : CostBreakdown F
  pub top_consumers : List (CostConsumer F)
  pub currency : String

pub data ProjectionPeriod : Type 0 where
  daily weekly monthly quarterly : ProjectionPeriod

pub record ConfidenceInterval (F : Type 0) : Type 0 where
  pub lower_bound : F
  pub upper_bound : F
  pub confidence_level : F

pub data CostTrend : Type 0 where
  increasing stable decreasing : CostTrend

pub record CostProjection (F : Type 0) : Type 0 where
  pub projection_id : String
  pub generated_at : ℤ
  pub projection_period : ProjectionPeriod
  pub projected_cost_usd : F
  pub confidence_interval : ConfidenceInterval F
  pub trend : CostTrend
  pub assumptions : List String

pub record BaselinePeriod : Type 0 where
  pub start : ℤ
  pub end : ℤ

pub record TokenMetrics : Type 0 where
  pub total_tokens : ℕ
  pub prompt_tokens : ℕ
  pub completion_tokens : ℕ
  pub cached_tokens : ℕ
  pub by_model : Dict ℕ

pub record CostPerToken (F : Type 0) : Type 0 where
  pub average_cost_per_1k_tokens : F
  pub prompt_cost_per_1k : F
  pub completion_cost_per_1k : F
  pub by_model : Dict F

pub record EfficiencyMetrics (F : Type 0) : Type 0 where
  pub cache_hit_rate : F
  pub tokens_per_request_avg : F
  pub cost_per_request_avg : F

pub record TokenAccountingBaseline (F : Type 0) : Type 0 where
  pub baseline_id : String
  pub created_at : ℤ
  pub period : BaselinePeriod
  pub token_metrics : TokenMetrics
  pub cost_per_token : CostPerToken F
  pub efficiency_metrics : EfficiencyMetrics F

pub data Granularity : Type 0 where
  hourly daily weekly monthly : Granularity

pub record CostSummaryQuery : Type 0 where
  pub start_time : Option ℤ
  pub end_time : Option ℤ
  pub providers : Option (List String)
  pub models : Option (List String)
  pub teams : Option (List String)
  pub granularity : Option Granularity

pub record BudgetStatus (F : Type 0) : Type 0 where
  pub budget_id : String
  pub team_id : Option String
  pub period_budget_usd : F
  pub spent_usd : F
  pub remaining_usd : F
  pub utilization_percentage : F
  pub projected_overage : Option F
