-- ===== src/Adapters/ConfigManager/Types.antt =====
-- The types of src/adapters/config_manager.rs. `F` is the type of f64 and `Json` that of JSON
-- values; times are nanoseconds since the epoch.
use analytics_hub.Prelude.{ℕ, String, Option, Bool, List}
use analytics_hub.Prelude.Int.{ℤ}
use analytics_hub.Prelude.Dict.{Dict}

pub record ConfigManagerConfig : Type 0 where
  pub endpoint : String
  pub api_key : Option String
  pub timeout_secs : ℕ
  pub cache_ttl_secs : ℕ

pub record RollupWindow : Type 0 where
  pub name : String
  pub duration_minutes : ℕ
  pub aggregations : List String

pub record AggregationConfig (F : Type 0) : Type 0 where
  pub default_window_minutes : ℕ
  pub rollup_windows : List RollupWindow
  pub default_percentiles : List F
  pub max_cardinality : ℕ
  pub enable_histograms : Bool

pub data AnomalyAlgorithm : Type 0 where
  z_score iqr dbscan isolation_forest prophet : AnomalyAlgorithm

pub record AnomalyDetectionConfig (F : Type 0) : Type 0 where
  pub enabled : Bool
  pub algorithm : AnomalyAlgorithm
  pub sensitivity : F
  pub min_data_points : ℕ
  pub evaluation_window_minutes : ℕ
  pub cooldown_minutes : ℕ

pub data ForecastModel : Type 0 where
  arima prophet exponential_smoothing linear_regression lstm : ForecastModel

pub record ForecastingConfig (F : Type 0) : Type 0 where
  pub enabled : Bool
  pub model : ForecastModel
  pub horizon_hours : ℕ
  pub training_window_days : ℕ
  pub update_frequency_hours : ℕ
  pub confidence_level : F

pub data AlertSeverity : Type 0 where
  info warning error critical : AlertSeverity

pub data ChannelType : Type 0 where
  email slack pager_duty webhook sns : ChannelType

pub record AlertChannel : Type 0 where
  pub channel_type : ChannelType
  pub config : Dict String
  pub enabled : Bool

pub record AlertingConfig : Type 0 where
  pub enabled : Bool
  pub default_severity : AlertSeverity
  pub channels : List AlertChannel
  pub rate_limit_per_hour : ℕ
  pub grouping_window_minutes : ℕ

pub record SamplingConfig (F : Type 0) : Type 0 where
  pub enabled : Bool
  pub default_rate : F
  pub high_volume_rate : F
  pub high_volume_threshold_rps : ℕ
  pub preserve_errors : Bool

pub record AnalyticsParameters (F : Type 0) : Type 0 where
  pub config_id : String
  pub version : String
  pub created_at : ℤ
  pub aggregation : AggregationConfig F
  pub anomaly_detection : AnomalyDetectionConfig F
  pub forecasting : ForecastingConfig F
  pub alerting : AlertingConfig
  pub sampling : SamplingConfig F

pub data DataType : Type 0 where
  raw_events aggregated_metrics traces logs alerts audits : DataType

pub data StorageTier : Type 0 where
  hot warm cold archive : StorageTier

pub record RetentionPolicy : Type 0 where
  pub policy_id : String
  pub name : String
  pub data_type : DataType
  pub retention_days : ℕ
  pub tier : StorageTier
  pub compress_after_days : Option ℕ
  pub archive_after_days : Option ℕ

pub data ArchivalDestination : Type 0 where
  s3 : String → String → ArchivalDestination
  gcs : String → String → ArchivalDestination
  azure : String → String → ArchivalDestination

pub data CompressionType : Type 0 where
  no_compression gzip zstd lz4 snappy : CompressionType

pub record ArchivalConfig : Type 0 where
  pub enabled : Bool
  pub destination : ArchivalDestination
  pub compression : CompressionType
  pub encryption_enabled : Bool

pub record CompactionConfig : Type 0 where
  pub enabled : Bool
  pub schedule_cron : String
  pub target_file_size_mb : ℕ
  pub max_concurrent_jobs : ℕ

pub record RetentionSettings : Type 0 where
  pub config_id : String
  pub version : String
  pub created_at : ℤ
  pub policies : List RetentionPolicy
  pub archival : ArchivalConfig
  pub compaction : CompactionConfig

pub record FeatureFlag (F : Type 0) : Type 0 where
  pub name : String
  pub enabled : Bool
  pub description : String
  pub rollout_percentage : F
  pub allowed_environments : List String

pub record FeatureFlags (F : Type 0) : Type 0 where
  pub config_id : String
  pub flags : Dict (FeatureFlag F)
  pub last_updated : ℤ

pub record ResourceLimits : Type 0 where
  pub max_concurrent_queries : ℕ
  pub max_query_timeout_secs : ℕ
  pub max_result_rows : ℕ
  pub max_memory_mb : ℕ

pub record SecurityConfig : Type 0 where
  pub require_auth : Bool
  pub allowed_origins : List String
  pub rate_limit_rps : ℕ
  pub ip_whitelist : Option (List String)

pub record EnvironmentConfig : Type 0 where
  pub environment : String
  pub endpoints : Dict String
  pub limits : ResourceLimits
  pub security : SecurityConfig
