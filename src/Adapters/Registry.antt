-- ===== src/Adapters/Registry.antt =====
-- src/adapters/registry.rs: the answers of the adapter, placeholders in the source. `fresh` is
-- the text of a new UUID; `now` is the clock, read once for an answer.
pub mod Types
use analytics_hub.Prelude.{ℕ, String, Option, Bool, List, none, Outcome, []}
use analytics_hub.Prelude.Int.{ℤ}
use analytics_hub.Prelude.Float.{FloatOps}
use analytics_hub.Adapters.Gate.{when_connected, or_else}
use analytics_hub.Adapters.Registry.Types.{
  RegistryConfig, ModelMetadata, PipelineDescriptor, ProviderInfo, ModelQuery, PipelineQuery,
  active, operational, text_generation,
}

-- `from_env`; `env` looks up a variable and `parse_u64` reads a number.
unfoldable pub from_env : (String → Option String) → (String → Option ℕ) → RegistryConfig
from_env env parse_u64 = record {
  endpoint = or_else (env "REGISTRY_ENDPOINT") "http://localhost:8084";
  api_key = env "REGISTRY_API_KEY";
  timeout_secs = or_else (parse_u64 (or_else (env "REGISTRY_TIMEOUT_SECS") "30")) 30;
}

module _ (f : FloatOps) where
  unfoldable pub fetch_model : Bool → ℤ → String → Outcome (ModelMetadata f.F) String
  fetch_model connected now model_id =
      when_connected connected "Registry adapter not connected" (record {
        model_id = model_id;
        name = model_id;
        version = "1.0.0";
        provider = "unknown";
        model_type = text_generation;
        capabilities = [];
        context_window = 0;
        pricing = (record {
          currency = "USD";
          input_cost_per_1k_tokens = (f.of_nat 0);
          output_cost_per_1k_tokens = (f.of_nat 0);
          image_cost_per_unit = none;
          audio_cost_per_minute = none;
        });
        performance = (record {
          avg_latency_ms = (f.of_nat 0);
          p95_latency_ms = (f.of_nat 0);
          p99_latency_ms = (f.of_nat 0);
          tokens_per_second = (f.of_nat 0);
          availability = (f.of_nat 0);
        });
        status = active;
        registered_at = now;
        last_updated = now;
        tags = [];
      })

  unfoldable pub list_models : Bool → ModelQuery → Outcome (List (ModelMetadata f.F)) String
  list_models connected query = when_connected connected "Registry adapter not connected" []

  unfoldable pub fetch_pipeline :
      {Json : Type 0} → Bool → ℤ → Json → String → Outcome (PipelineDescriptor f.F Json) String
  fetch_pipeline connected now empty_object pipeline_id =
      when_connected connected "Registry adapter not connected" (record {
        pipeline_id = pipeline_id;
        name = pipeline_id;
        version = "1.0.0";
        description = "";
        stages = [];
        input_schema = empty_object;
        output_schema = empty_object;
        created_at = now;
        last_updated = now;
        owner = "unknown";
        status = active;
        metrics = (record {
          total_invocations = 0;
          success_rate = (f.of_nat 0);
          avg_latency_ms = (f.of_nat 0);
          avg_cost_per_invocation = (f.of_nat 0);
        });
      })

  unfoldable pub list_pipelines :
      {Json : Type 0} → Bool → PipelineQuery → Outcome (List (PipelineDescriptor f.F Json)) String
  list_pipelines connected query = when_connected connected "Registry adapter not connected" []

  unfoldable pub fetch_provider : Bool → ℤ → String → Outcome (ProviderInfo f.F) String
  fetch_provider connected now provider_id =
      when_connected connected "Registry adapter not connected" (record {
        provider_id = provider_id;
        name = provider_id;
        status = operational;
        api_version = "1.0";
        models = [];
        rate_limits = (record {
          requests_per_minute = 0;
          tokens_per_minute = 0;
          tokens_per_day = none;
        });
        health = (record {
          availability = (f.of_nat 0);
          avg_latency_ms = (f.of_nat 0);
          error_rate = (f.of_nat 0);
          last_checked = now;
        });
      })

  unfoldable pub list_providers : Bool → Outcome (List (ProviderInfo f.F)) String
  list_providers connected = when_connected connected "Registry adapter not connected" []
