-- ===== src/Pipeline/Flow.antt =====
-- src/pipeline/mod.rs and src/pipeline/stream.rs: an event, or a batch, on its way through the
-- processor, the database, the cache and the stream.
pub mod Stages
pub mod Batches
use analytics_hub.Prelude.{ℕ, String, Bool, List, Outcome, ok, err, map_err}
use analytics_hub.Prelude.Effects.{Effect, ◌>>=◌, ◌>>◌, for_each, pure, continue}
use analytics_hub.Schema.Event.{AnalyticsEvent}
use analytics_hub.Storage.{DbError, Faults, Table, store_event, store_batch}
use analytics_hub.Pipeline.Processing.{ProcessingStats, ProcessingError, process, process_batch}
use analytics_hub.Pipeline.Cache.{Redis, CacheManager, update_metrics, update_batch}

-- The errors that `anyhow` carries out, by the stage that raises them.
pub data PipelineError (R : Type 0) : Type 0 where
  processing_error : ProcessingError → PipelineError R
  storage_error : DbError → PipelineError R
  cache_error : R → PipelineError R

-- `tokio::sync::broadcast`: what a channel is, and what a `send` answers and makes of it, which
-- depends on its capacity and its receivers.
pub record Broadcast (T : Type 0) : Type 1 where
  pub Channel : Type 0
  pub SendError : Type 0
  pub send : T → Channel → Outcome ℕ SendError × Channel

module _ (r : Redis) (P : Type 0) (b : Broadcast (AnalyticsEvent P)) where
  -- `Pipeline`, with the table, and the channel of the stream.
  pub record Pipeline : Type 0 where
    pub stats : ProcessingStats
    pub table : Table P
    pub cache : CacheManager r
    pub event_tx : b.Channel

  abbrev pub Stage : Type 0 → Type 0
  Stage A = Effect Pipeline (PipelineError r.RedisError) A

  unfoldable pub processor_stage : String → AnalyticsEvent P → Stage (AnalyticsEvent P)
  processor_stage now e p =
      let (x, stats) = process now e p.stats in
      (map_err processing_error x, record p { stats = stats })

  unfoldable pub storage_stage : Bool → AnalyticsEvent P → Stage (Unit {0})
  storage_stage fails e p =
      let (x, t) = store_event fails e p.table in (map_err storage_error x, record p { table = t })

  unfoldable pub cache_stage : AnalyticsEvent P → Stage (Unit {0})
  cache_stage e p =
      let (x, c) = update_metrics r e p.cache in (map_err cache_error x, record p { cache = c })

  -- `StreamManager::publish`: what the send answers is dropped.
  unfoldable pub publish : AnalyticsEvent P → Stage (Unit {0})
  publish e p = (ok tt, record p { event_tx = (b.send e p.event_tx).1 })

  -- `Pipeline::process_event`
  unfoldable pub process_event : String → Bool → AnalyticsEvent P → Stage (Unit {0})
  process_event now fails e = do
    processed ← processor_stage now e
    storage_stage fails processed
    cache_stage processed
    publish processed

  unfoldable pub processor_batch :
      List (String × AnalyticsEvent P) → Stage (List (AnalyticsEvent P))
  processor_batch es p =
      let (x, stats) = process_batch es p.stats in (ok x, record p { stats = stats })

  unfoldable pub storage_batch : Faults → List (AnalyticsEvent P) → Stage (Unit {0})
  storage_batch f es p =
      let (x, t) = store_batch f es p.table in (map_err storage_error x, record p { table = t })

  unfoldable pub cache_batch : List (AnalyticsEvent P) → Stage (Unit {0})
  cache_batch es p =
      let (x, c) = update_batch r es p.cache in (map_err cache_error x, record p { cache = c })

  -- `StreamManager::publish_batch`
  unfoldable pub publish_batch : List (AnalyticsEvent P) → Stage (Unit {0})
  publish_batch = for_each publish

  -- `Pipeline::process_batch`
  unfoldable pub run_batch : List (String × AnalyticsEvent P) → Faults → Stage (Unit {0})
  run_batch es f = do
    processed ← processor_batch es
    storage_batch f processed
    cache_batch processed
    publish_batch processed
