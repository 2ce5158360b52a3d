-- ===== src/Adapters/Observatory.antt =====
-- src/adapters/observatory.rs: the answers of the adapter, placeholders in the source. `fresh` is
-- the text of a new UUID; `now` is the clock, read once for an answer.
pub mod Types
use analytics_hub.Prelude.{ℕ, String, Option, Bool, List, Outcome, []}
use analytics_hub.Prelude.Float.{FloatOps}
use analytics_hub.Adapters.Gate.{when_connected, or_else}
use analytics_hub.Adapters.Observatory.Types.{
  ObservatoryConfig, TelemetryPoint, UsageTrace, PerformanceMetrics, TimeRange, TelemetryQuery,
  TraceQuery,
}

-- `from_env`; `env` looks up a variable and `parse_u64` reads a number.
unfoldable pub from_env : (String → Option String) → (String → Option ℕ) → ObservatoryConfig
from_env env parse_u64 = record {
  endpoint = or_else (env "OBSERVATORY_ENDPOINT") "http://localhost:8081";
  api_key = env "OBSERVATORY_API_KEY";
  timeout_secs = or_else (parse_u64 (or_else (env "OBSERVATORY_TIMEOUT_SECS") "30")) 30;
  batch_size = or_else (parse_u64 (or_else (env "OBSERVATORY_BATCH_SIZE") "100")) 100;
}

module _ (f : FloatOps) where
  unfoldable pub fetch_telemetry :
      Bool → TelemetryQuery → Outcome (List (TelemetryPoint f.F)) String
  fetch_telemetry connected query = when_connected connected "Observatory adapter not connected" []

  unfoldable pub fetch_traces :
      {Json : Type 0} → Bool → TraceQuery → Outcome (List (UsageTrace Json)) String
  fetch_traces connected query = when_connected connected "Observatory adapter not connected" []

  unfoldable pub fetch_performance_metrics :
      Bool → String → String → TimeRange → Outcome (PerformanceMetrics f.F) String
  fetch_performance_metrics connected fresh measurement time_range =
      when_connected connected "Observatory adapter not connected" (record {
        metric_id = fresh;
        measurement = measurement;
        time_range = time_range;
        data_points = [];
        aggregations = (record {
          min = (f.of_nat 0);
          max = (f.of_nat 0);
          avg = (f.of_nat 0);
          p50 = (f.of_nat 0);
          p95 = (f.of_nat 0);
          p99 = (f.of_nat 0);
          count = 0;
        });
      })
