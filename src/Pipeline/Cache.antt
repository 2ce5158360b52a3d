-- ===== src/Pipeline/Cache.antt =====
-- src/pipeline/cache.rs: the writes of the event metrics. The Redis server and its client are a
-- parameter.
use Prim.Native.String.{◌++◌}
use analytics_hub.Prelude.{String, Bool, true, false, List, Outcome, ok, err}
use analytics_hub.Prelude.Int.{ℤ}
use analytics_hub.Prelude.Effects.{Effect, ◌>>◌, for_each}
use analytics_hub.Schema.Event.{
  SourceModule, llm_observatory, llm_sentinel, llm_cost_ops, llm_governance_dashboard, llm_registry,
  llm_policy_engine, llm_analytics_hub, EventType, telemetry, security, cost, governance, lifecycle,
  audit, alert, AnalyticsEvent, seconds,
}

pub record Redis : Type 1 where
  pub Server : Type 0
  pub RedisError : Type 0
  pub connect : Effect Server RedisError (Unit {0})
  pub incr_by_one : String → Effect Server RedisError (Unit {0})
  pub set_number : String → ℤ → Effect Server RedisError (Unit {0})

-- The names that `{:?}` prints.
unfoldable pub module_name : SourceModule → String
module_name llm_observatory = "LlmObservatory"
module_name llm_sentinel = "LlmSentinel"
module_name llm_cost_ops = "LlmCostOps"
module_name llm_governance_dashboard = "LlmGovernanceDashboard"
module_name llm_registry = "LlmRegistry"
module_name llm_policy_engine = "LlmPolicyEngine"
module_name llm_analytics_hub = "LlmAnalyticsHub"

unfoldable pub type_name : EventType → String
type_name telemetry = "Telemetry"
type_name security = "Security"
type_name cost = "Cost"
type_name governance = "Governance"
type_name lifecycle = "Lifecycle"
type_name audit = "Audit"
type_name alert = "Alert"

module _ {P : Type 0} where
  abbrev pub key_of : String → AnalyticsEvent P → String
  key_of prefix e =
      prefix ++ module_name e.common.source_module ++ ":" ++ type_name e.common.event_type

  unfoldable pub counter_key : AnalyticsEvent P → String
  counter_key e = key_of "counter:" e

  unfoldable pub last_event_key : AnalyticsEvent P → String
  last_event_key e = key_of "last_event:" e

module _ (r : Redis) where
  -- `CacheManager`: whether `conn` is there, and the server.
  pub record CacheManager : Type 0 where
    pub connected : Bool
    pub server : r.Server

  unfoldable pub on_server :
      {A : Type 0} → Effect r.Server r.RedisError A → Effect CacheManager r.RedisError A
  on_server m c = let (x, s) = m c.server in (x, record c { server = s })

  abbrev pub connected_by :
      Outcome (Unit {0}) r.RedisError
      → CacheManager
      → Outcome (Unit {0}) r.RedisError × CacheManager
  connected_by (ok _) c = (ok tt, record c { connected = true })
  connected_by (err e) c = (err e, c)

  abbrev pub connection_of : Bool → Effect CacheManager r.RedisError (Unit {0})
  connection_of true c = (ok tt, c)
  connection_of false c = let (x, c') = on_server r.connect c in connected_by x c'

  unfoldable pub get_connection : Effect CacheManager r.RedisError (Unit {0})
  get_connection c = connection_of c.connected c

  unfoldable pub update_metrics :
      {P : Type 0} → AnalyticsEvent P → Effect CacheManager r.RedisError (Unit {0})
  update_metrics e = do
    get_connection
    on_server (r.incr_by_one (counter_key e))
    on_server (r.set_number (last_event_key e) (seconds e.common.timestamp))

  unfoldable pub update_batch :
      {P : Type 0} → List (AnalyticsEvent P) → Effect CacheManager r.RedisError (Unit {0})
  update_batch = for_each update_metrics
