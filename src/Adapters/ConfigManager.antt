-- ===== src/Adapters/ConfigManager.antt =====
-- src/adapters/config_manager.rs: the answers of the adapter, placeholders in the source. `fresh` is
-- the text of a new UUID; `now` is the clock, read once for an answer.
pub mod Types
use analytics_hub.Prelude.{ℕ, String, Option, Bool, none, some, true, false, Outcome, ◌∷◌, []}
use analytics_hub.Prelude.Int.{ℤ}
use analytics_hub.Prelude.Float.{FloatOps}
use analytics_hub.Adapters.Gate.{when_connected, or_else}
use analytics_hub.Adapters.ConfigManager.Types.{
  ConfigManagerConfig, AnalyticsParameters, RetentionSettings, FeatureFlags, EnvironmentConfig,
  aggregated_metrics, exponential_smoothing, hot, raw_events, s3, traces, warm, warning, z_score,
  zstd,
}

-- `from_env`; `env` looks up a variable and `parse_u64` reads a number.
unfoldable pub from_env : (String → Option String) → (String → Option ℕ) → ConfigManagerConfig
from_env env parse_u64 = record {
  endpoint = or_else (env "CONFIG_MANAGER_ENDPOINT") "http://localhost:8085";
  api_key = env "CONFIG_MANAGER_API_KEY";
  timeout_secs = or_else (parse_u64 (or_else (env "CONFIG_MANAGER_TIMEOUT_SECS") "30")) 30;
  cache_ttl_secs = or_else (parse_u64 (or_else (env "CONFIG_MANAGER_CACHE_TTL_SECS") "300")) 300;
}

module _ (f : FloatOps) where
  unfoldable pub fetch_analytics_parameters :
      Bool → String → ℤ → Outcome (AnalyticsParameters f.F) String
  fetch_analytics_parameters connected fresh now =
      when_connected connected "Config-Manager adapter not connected" (record {
        config_id = fresh;
        version = "1.0.0";
        created_at = now;
        aggregation = (record {
          default_window_minutes = 5;
          rollup_windows =
              ((record {
                name = "1min";
                duration_minutes = 1;
                aggregations = ("avg" ∷ "count" ∷ []);
              })
                ∷ (record {
                  name = "5min";
                  duration_minutes = 5;
                  aggregations = ("avg" ∷ "min" ∷ "max" ∷ "count" ∷ []);
                })
                ∷ (record {
                  name = "1hour";
                  duration_minutes = 60;
                  aggregations = ("avg" ∷ "min" ∷ "max" ∷ "p50" ∷ "p95" ∷ "p99" ∷ "count" ∷ []);
                })
                ∷ []);
          default_percentiles =
              ((f.div (f.of_nat 5) (f.of_nat 10))
                ∷ (f.div (f.of_nat 9) (f.of_nat 10))
                ∷ (f.div (f.of_nat 95) (f.of_nat 100))
                ∷ (f.div (f.of_nat 99) (f.of_nat 100))
                ∷ []);
          max_cardinality = 10000;
          enable_histograms = true;
        });
        anomaly_detection = (record {
          enabled = true;
          algorithm = z_score;
          sensitivity = (f.of_nat 3);
          min_data_points = 30;
          evaluation_window_minutes = 15;
          cooldown_minutes = 60;
        });
        forecasting = (record {
          enabled = true;
          model = exponential_smoothing;
          horizon_hours = 24;
          training_window_days = 7;
          update_frequency_hours = 1;
          confidence_level = (f.div (f.of_nat 95) (f.of_nat 100));
        });
        alerting = (record {
          enabled = true;
          default_severity = warning;
          channels = [];
          rate_limit_per_hour = 100;
          grouping_window_minutes = 5;
        });
        sampling = (record {
          enabled = false;
          default_rate = (f.of_nat 1);
          high_volume_rate = (f.div (f.of_nat 1) (f.of_nat 10));
          high_volume_threshold_rps = 10000;
          preserve_errors = true;
        });
      })

  unfoldable pub fetch_retention_settings : Bool → String → ℤ → Outcome RetentionSettings String
  fetch_retention_settings connected fresh now =
      when_connected connected "Config-Manager adapter not connected" (record {
        config_id = fresh;
        version = "1.0.0";
        created_at = now;
        policies =
            ((record {
              policy_id = "raw-events";
              name = "Raw Events";
              data_type = raw_events;
              retention_days = 7;
              tier = hot;
              compress_after_days = (some 1);
              archive_after_days = (some 7);
            })
              ∷ (record {
                policy_id = "aggregated-metrics";
                name = "Aggregated Metrics";
                data_type = aggregated_metrics;
                retention_days = 90;
                tier = warm;
                compress_after_days = (some 7);
                archive_after_days = (some 30);
              })
              ∷ (record {
                policy_id = "traces";
                name = "Traces";
                data_type = traces;
                retention_days = 14;
                tier = hot;
                compress_after_days = (some 3);
                archive_after_days = (some 14);
              })
              ∷ []);
        archival = (record {
          enabled = false;
          destination = (s3 "analytics-archive" "data/");
          compression = zstd;
          encryption_enabled = true;
        });
        compaction = (record {
          enabled = true;
          schedule_cron = "0 2 * * *";
          target_file_size_mb = 256;
          max_concurrent_jobs = 4;
        });
      })

  unfoldable pub fetch_feature_flags : Bool → String → ℤ → Outcome (FeatureFlags f.F) String
  fetch_feature_flags connected fresh now =
      when_connected connected "Config-Manager adapter not connected"
        (record { config_id = fresh; flags = []; last_updated = now })

  unfoldable pub fetch_environment_config : Bool → String → Outcome EnvironmentConfig String
  fetch_environment_config connected environment =
      when_connected connected "Config-Manager adapter not connected" (record {
        environment = environment;
        endpoints = [];
        limits = (record {
          max_concurrent_queries = 100;
          max_query_timeout_secs = 300;
          max_result_rows = 100000;
          max_memory_mb = 4096;
        });
        security = (record {
          require_auth = true;
          allowed_origins = ("*" ∷ []);
          rate_limit_rps = 1000;
          ip_whitelist = none;
        });
      })

  unfoldable pub get_config_value : {T : Type 0} → Bool → String → Outcome (Option T) String
  get_config_value connected key =
      when_connected connected "Config-Manager adapter not connected" none
