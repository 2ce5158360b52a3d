-- ===== src/Adapters/Registry/Types.antt =====
-- The types of src/adapters/registry.rs. `F` is the type of f64 and `Json` that of JSON
-- values; times are nanoseconds since the epoch.
use analytics_hub.Prelude.{ℕ, String, Option, List}
use analytics_hub.Prelude.Int.{ℤ}
use analytics_hub.Prelude.Dict.{Dict}

pub record RegistryConfig : Type 0 where
  pub endpoint : String
  pub api_key : Option String
  pub timeout_secs : ℕ

pub data ModelType : Type 0 where
  text_generation text_embedding image_generation image_analysis audio_transcription
        audio_generation multi_modal code_generation fine_tuned :
      ModelType

pub data ModelCapability : Type 0 where
  chat completion embedding function_calling vision audio streaming batch_processing fine_tuning :
      ModelCapability

pub record ModelPricing (F : Type 0) : Type 0 where
  pub currency : String
  pub input_cost_per_1k_tokens : F
  pub output_cost_per_1k_tokens : F
  pub image_cost_per_unit : Option F
  pub audio_cost_per_minute : Option F

pub record ModelPerformance (F : Type 0) : Type 0 where
  pub avg_latency_ms : F
  pub p95_latency_ms : F
  pub p99_latency_ms : F
  pub tokens_per_second : F
  pub availability : F

pub data ModelStatus : Type 0 where
  active deprecated preview maintenance retired : ModelStatus

pub record ModelMetadata (F : Type 0) : Type 0 where
  pub model_id : String
  pub name : String
  pub version : String
  pub provider : String
  pub model_type : ModelType
  pub capabilities : List ModelCapability
  pub context_window : ℕ
  pub pricing : ModelPricing F
  pub performance : ModelPerformance F
  pub status : ModelStatus
  pub registered_at : ℤ
  pub last_updated : ℤ
  pub tags : Dict String

pub data StageType : Type 0 where
  model_inference preprocessing postprocessing embedding retrieval routing aggregation transform
        cache rate_limit :
      StageType

pub record RetryPolicy (F : Type 0) : Type 0 where
  pub max_attempts : ℕ
  pub initial_delay_ms : ℕ
  pub max_delay_ms : ℕ
  pub backoff_multiplier : F

pub record PipelineStage (F : Type 0) (Json : Type 0) : Type 0 where
  pub stage_id : String
  pub stage_name : String
  pub stage_type : StageType
  pub model_id : Option String
  pub config : Dict Json
  pub timeout_ms : ℕ
  pub retry_policy : RetryPolicy F

pub data PipelineStatus : Type 0 where
  active paused draft archived : PipelineStatus

pub record PipelineMetrics (F : Type 0) : Type 0 where
  pub total_invocations : ℕ
  pub success_rate : F
  pub avg_latency_ms : F
  pub avg_cost_per_invocation : F

pub record PipelineDescriptor (F : Type 0) (Json : Type 0) : Type 0 where
  pub pipeline_id : String
  pub name : String
  pub version : String
  pub description : String
  pub stages : List (PipelineStage F Json)
  pub input_schema : Json
  pub output_schema : Json
  pub created_at : ℤ
  pub last_updated : ℤ
  pub owner : String
  pub status : PipelineStatus
  pub metrics : PipelineMetrics F

pub data ProviderStatus : Type 0 where
  operational degraded outage : ProviderStatus

pub record RateLimits : Type 0 where
  pub requests_per_minute : ℕ
  pub tokens_per_minute : ℕ
  pub tokens_per_day : Option ℕ

pub record ProviderHealth (F : Type 0) : Type 0 where
  pub availability : F
  pub avg_latency_ms : F
  pub error_rate : F
  pub last_checked : ℤ

pub record ProviderInfo (F : Type 0) : Type 0 where
  pub provider_id : String
  pub name : String
  pub status : ProviderStatus
  pub api_version : String
  pub models : List String
  pub rate_limits : RateLimits
  pub health : ProviderHealth F

pub record ModelQuery : Type 0 where
  pub providers : Option (List String)
  pub model_types : Option (List ModelType)
  pub capabilities : Option (List ModelCapability)
  pub status : Option ModelStatus
  pub min_context_window : Option ℕ
  pub tags : Option (Dict String)

pub record PipelineQuery : Type 0 where
  pub owner : Option String
  pub status : Option PipelineStatus
  pub model_ids : Option (List String)
  pub created_after : Option ℤ
