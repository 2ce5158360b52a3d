-- ===== src/Pipeline/Flow/Batches.antt =====
-- What a batch leaves behind in src/pipeline/mod.rs.
use analytics_hub.Prelude.{
  ℕ, ◌≤◌, ◌≡◌, refl, ap, sym, ◌∙◌, String, List, [], ◌∷◌, Outcome, ok, err, map_err, if◌then◌else◌,
  u64_max,
}
use analytics_hub.Prelude.Effects.{◌>>=◌, continue}
use analytics_hub.Schema.Event.{AnalyticsEvent}
use analytics_hub.Storage.{DbError, Faults, Table, store_batch, find, has}
use analytics_hub.Storage.Batch.{store_batch_atomic, find-store_batch}
use analytics_hub.Pipeline.Processing.{ProcessingStats}
use analytics_hub.Pipeline.Processing.Batch.{enriched, process_batch_lem}
use analytics_hub.Pipeline.Cache.{Redis, CacheManager, update_batch}
use analytics_hub.Pipeline.Flow.{
  Broadcast, PipelineError, processing_error, storage_error, cache_error, Pipeline, publish,
  processor_batch, storage_batch, cache_batch, publish_batch, run_batch,
}

module _ (r : Redis) {P : Type 0} (b : Broadcast (AnalyticsEvent P)) where
  -- The channel after the events are sent to it, one after the other.
  abbrev pub sent : List (AnalyticsEvent P) → b.Channel → b.Channel
  sent [] c = c
  sent (e ∷ es) c = sent es (b.send e c).1

  publish_batch_lem :
      (es : List (AnalyticsEvent P)) (p : Pipeline r P b)
      → publish_batch r P b es p ≡ (ok tt, record p { event_tx = sent es p.event_tx })
  unfolding publish_batch publish
  publish_batch_lem [] p = refl
  publish_batch_lem (e ∷ es) p =
      publish_batch_lem es (record p { event_tx = (b.send e p.event_tx).1 })

  -- The rows of the table `u` are those of `t`, and else those of a batch.
  abbrev pub IsStored : List (AnalyticsEvent P) → Table P → Table P → Type 0
  IsStored es t u = (i : ℕ) → find i u ≡ (if has i t then find i t else find i es)

  -- What the pipeline is after a batch, by the result.
  abbrev pub LeftBehind :
      List (AnalyticsEvent P)
      → Pipeline r P b
      → Outcome (Unit {0}) (PipelineError r.RedisError)
      → Pipeline r P b
      → Type 0
  LeftBehind es p (err (processing_error x)) q = ⊥
  LeftBehind es p (err (storage_error x)) q =
      (q.table ≡ p.table) × (q.cache ≡ p.cache) × (q.event_tx ≡ p.event_tx)
  LeftBehind es p (err (cache_error x)) q = IsStored es p.table q.table × (q.event_tx ≡ p.event_tx)
  LeftBehind es p (ok _) q = IsStored es p.table q.table × (q.event_tx ≡ sent es p.event_tx)

  after_cache :
      (es : List (AnalyticsEvent P)) (p : Pipeline r P b) (stats : ProcessingStats) (t : Table P)
      (x : Outcome (Unit {0}) r.RedisError) (c : CacheManager r)
      → IsStored es p.table t
      → let q = record p { stats = stats; table = t; cache = c } in
        let last = continue (map_err cache_error x) (λ (_ : Unit {0}). publish_batch r P b es) q in
        LeftBehind es p last.0 last.1
  after_cache es p stats t (ok x) c h =
      rw (publish_batch_lem es (record p { stats = stats; table = t; cache = c })) (h, refl)
  after_cache es p stats t (err x) c h = (h, refl)

  after_storage :
      (f : Faults) (es : List (AnalyticsEvent P)) (p : Pipeline r P b) (stats : ProcessingStats)
      (x : Outcome (Unit {0}) DbError) (t : Table P)
      → store_batch f es p.table ≡ (x, t)
      → let rest =
          continue
            (map_err storage_error x)
            (λ (_ : Unit {0}). cache_batch r P b es >>= λ (_ : Unit {0}). publish_batch r P b es) in
        let q = record p { stats = stats; table = t } in LeftBehind es p (rest q).0 (rest q).1
  unfolding cache_batch
  after_storage f es p stats (ok x) t h =
      let (y, c) = update_batch r es p.cache in
      after_cache es p stats t y c
        (λ i. rw h at (find-store_batch f es p.table i (ap (λ q. q.0) h)))
  after_storage f es p stats (err x) t h =
      (sym (ap (λ q. q.1) h) ∙ store_batch_atomic f es p.table (ap (λ q. q.0) h), refl, refl)

  -- A batch is processed first, and the events that are accepted go on together: where the database
  -- fails, nothing is stored, cached or sent; where the cache fails, all of them are stored and none
  -- is sent. Where all succeed, each is found in the table under its key, unless the key was there,
  -- and the channel of the stream is the one that sending them all, in their order, makes of it.
  -- What of it a subscriber receives is up to the channel. No processing error ends a batch.
  pub run_batch_lem :
      (es : List (String × AnalyticsEvent P)) (f : Faults) (p : Pipeline r P b)
      → p.stats.events_processed ≤ u64_max
      → p.stats.events_failed ≤ u64_max
      → LeftBehind (enriched es) p (run_batch r P b es f p).0 (run_batch r P b es f p).1
  unfolding run_batch processor_batch storage_batch
  run_batch_lem es f p counted failed =
      rw (process_batch_lem es p.stats counted failed) (after_storage f (enriched es) p _ _ _ refl)
