-- ===== src/Adapters/CostOps.antt =====
-- src/adapters/costops.rs: the answers of the adapter, placeholders in the source. `fresh` is
-- the text of a new UUID; `now` is the clock, read once for an answer.
pub mod Types
use analytics_hub.Prelude.{ℕ, String, Option, Bool, List, none, Outcome, []}
use analytics_hub.Prelude.Int.{ℤ}
use analytics_hub.Prelude.Float.{FloatOps}
use analytics_hub.Adapters.Gate.{when_connected, or_else}
use analytics_hub.Adapters.CostOps.Types.{
  CostOpsConfig, CostSummary, CostProjection, ProjectionPeriod, TokenAccountingBaseline,
  CostSummaryQuery, BudgetStatus,
}

-- `from_env`; `env` looks up a variable and `parse_u64` reads a number.
unfoldable pub from_env : (String → Option String) → (String → Option ℕ) → CostOpsConfig
from_env env parse_u64 = record {
  endpoint = or_else (env "COSTOPS_ENDPOINT") "http://localhost:8082";
  api_key = env "COSTOPS_API_KEY";
  timeout_secs = or_else (parse_u64 (or_else (env "COSTOPS_TIMEOUT_SECS") "30")) 30;
}

module _ (f : FloatOps) where
  unfoldable pub fetch_cost_summary :
      Bool → String → ℤ → CostSummaryQuery → Outcome (CostSummary f.F) String
  fetch_cost_summary connected fresh now query =
      when_connected connected "CostOps adapter not connected" (record {
        summary_id = fresh;
        period_start = (or_else query.start_time now);
        period_end = (or_else query.end_time now);
        total_cost_usd = (f.of_nat 0);
        breakdown = (record { by_provider = []; by_model = []; by_operation = []; by_team = [] });
        top_consumers = [];
        currency = "USD";
      })

  unfoldable pub fetch_projections :
      Bool → ProjectionPeriod → Outcome (List (CostProjection f.F)) String
  fetch_projections connected period = when_connected connected "CostOps adapter not connected" []

  unfoldable pub fetch_token_baseline :
      Bool → String → ℤ → ℤ → ℤ → Outcome (TokenAccountingBaseline f.F) String
  fetch_token_baseline connected fresh now start end =
      when_connected connected "CostOps adapter not connected" (record {
        baseline_id = fresh;
        created_at = now;
        period = (record { start = start; end = end });
        token_metrics = (record {
          total_tokens = 0;
          prompt_tokens = 0;
          completion_tokens = 0;
          cached_tokens = 0;
          by_model = [];
        });
        cost_per_token = (record {
          average_cost_per_1k_tokens = (f.of_nat 0);
          prompt_cost_per_1k = (f.of_nat 0);
          completion_cost_per_1k = (f.of_nat 0);
          by_model = [];
        });
        efficiency_metrics = (record {
          cache_hit_rate = (f.of_nat 0);
          tokens_per_request_avg = (f.of_nat 0);
          cost_per_request_avg = (f.of_nat 0);
        });
      })

  unfoldable pub fetch_budget_status :
      Bool → String → (Option String) → Outcome (BudgetStatus f.F) String
  fetch_budget_status connected fresh team_id =
      when_connected connected "CostOps adapter not connected" (record {
        budget_id = fresh;
        team_id = team_id;
        period_budget_usd = (f.of_nat 0);
        spent_usd = (f.of_nat 0);
        remaining_usd = (f.of_nat 0);
        utilization_percentage = (f.of_nat 0);
        projected_overage = none;
      })
