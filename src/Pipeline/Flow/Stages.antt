-- ===== src/Pipeline/Flow/Stages.antt =====
-- What of an event each stage of src/pipeline/mod.rs has left behind when a later one fails.
use analytics_hub.Prelude.{
  ◌≡◌, refl, ◌⊎◌, inl, inr, String, Bool, true, false, Outcome, ok, err, map_err,
}
use analytics_hub.Prelude.Effects.{◌>>=◌, continue}
use analytics_hub.Schema.Event.{AnalyticsEvent}
use analytics_hub.Storage.{store_event, insert_or_nothing}
use analytics_hub.Pipeline.Processing.{
  ProcessingStats, ProcessingError, count_processed, enrich, validate,
}
use analytics_hub.Pipeline.Processing.Batch.{process_valid, process_invalid}
use analytics_hub.Pipeline.Cache.{Redis, CacheManager, update_metrics}
use analytics_hub.Pipeline.Flow.{
  Broadcast, PipelineError, processing_error, storage_error, cache_error, Pipeline, processor_stage,
  storage_stage, cache_stage, publish, process_event,
}

valid_cases :
    (v : Outcome (Unit {0}) ProcessingError) → (v ≡ ok tt) ⊎ ((x : ProcessingError) × (v ≡ err x))
valid_cases (ok _) = inl refl
valid_cases (err x) = inr (x, refl)

module _ (r : Redis) {P : Type 0} (b : Broadcast (AnalyticsEvent P)) where
  -- What the pipeline is afterwards, by the result.
  abbrev pub LeftBehind :
      String
      → AnalyticsEvent P
      → Pipeline r P b
      → Outcome (Unit {0}) (PipelineError r.RedisError)
      → Pipeline r P b
      → Type 0
  LeftBehind now e p (err (processing_error x)) q = q ≡ p
  LeftBehind now e p (err (storage_error x)) q =
      (q.table ≡ p.table) × (q.cache ≡ p.cache) × (q.event_tx ≡ p.event_tx)
  LeftBehind now e p (err (cache_error x)) q =
      (q.table ≡ insert_or_nothing (enrich now e) p.table) × (q.event_tx ≡ p.event_tx)
  LeftBehind now e p (ok _) q =
      (q.table ≡ insert_or_nothing (enrich now e) p.table)
      × (q.event_tx ≡ (b.send (enrich now e) p.event_tx).1)

  after_cache :
      (now : String) (e : AnalyticsEvent P) (p : Pipeline r P b) (stats : ProcessingStats)
      (x : Outcome (Unit {0}) r.RedisError) (c : CacheManager r)
      → let q = record p {
        stats = stats;
        table = insert_or_nothing (enrich now e) p.table;
        cache = c;
      } in
        let last =
          continue (map_err cache_error x) (λ (_ : Unit {0}). publish r P b (enrich now e)) q in
        LeftBehind now e p last.0 last.1
  unfolding publish
  after_cache now e p stats (ok x) c = (refl, refl)
  after_cache now e p stats (err x) c = (refl, refl)

  after_processing :
      (now : String) (fails : Bool) (e : AnalyticsEvent P) (p : Pipeline r P b)
      (stats : ProcessingStats)
      → let rest =
          (storage_stage r P b fails (enrich now e) >>= λ (_ : Unit {0}).
          cache_stage r P b (enrich now e) >>= λ (_ : Unit {0}). publish r P b (enrich now e)) in
        LeftBehind now e p
          (rest (record p { stats = stats })).0
          (rest (record p { stats = stats })).1
  unfolding storage_stage store_event cache_stage
  after_processing now true e p stats = (refl, refl, refl)
  after_processing now false e p stats =
      let (x, c) = update_metrics r (enrich now e) p.cache in after_cache now e p stats x c

  -- An event goes through the stages in order. Where it is refused as invalid nothing has changed;
  -- where the database fails, only the counter of processed events; where the cache fails, the row
  -- is stored and nothing is sent to the stream. Where all succeed, the enriched event is stored, unless
  -- its key was, and sent to the channel of the stream.
  pub process_event_lem :
      (now : String) (fails : Bool) (e : AnalyticsEvent P) (p : Pipeline r P b)
      → LeftBehind now e p
          (process_event r P b now fails e p).0
          (process_event r P b now fails e p).1
  unfolding process_event processor_stage
  process_event_lem now fails e p = elim (valid_cases (validate e)) [
    | inl h ↦
        rw (process_valid now e p.stats h)
          (after_processing now fails e p (count_processed p.stats))
    | inr (x, h) ↦ rw (process_invalid now e p.stats h) refl
  ]
