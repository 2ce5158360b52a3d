-- ===== src/Pipeline/Processing/Batch.antt =====
-- What src/pipeline/processing.rs makes of a batch of events.
use text.Mathlib.TextEquality.{eq_iff}
use analytics_hub.Prelude.{
  ◌+◌, ◌≤◌, ◌≡◌, String, Bool, true, false, some, not, List, [], ◌∷◌, ok, err, if◌then◌else◌, u64,
  u64_max, ◌&&◌, ◌⊎◌, arith, count, Bool-cases, inl, inr, ◌↔◌, ◌≢◌,
}
use analytics_hub.Prelude.Int.{ℤ, pos, ◌<ℤ◌, ltb_ℤ, leb_ℤ}
use analytics_hub.Prelude.Dict.{lookup, lookup-insert, str_eq}
use analytics_hub.Schema.Event.{AnalyticsEvent, seconds}
use analytics_hub.Pipeline.Processing.{
  ProcessingStats, validate, enrich, process, process_batch, pipeline_version, ProcessingError,
  count_processed, count_failed, schema_version_required, invalid_timestamp,
}

late : (t : ℤ) → leb_ℤ t (pos 0) ≡ true → ltb_ℤ (pos 0) t ≡ false
late t h = ground arith

early : (t : ℤ) → leb_ℤ t (pos 0) ≡ false → ltb_ℤ (pos 0) t ≡ true
early t h = ground arith

module _ {P : Type 0} where
  -- An event is accepted exactly when it names a schema version and lies at least a second after
  -- the epoch.
  pub accepts_iff :
      (event : AnalyticsEvent P)
      → (validate event ≡ ok tt)
        ↔ ((event.common.schema_version ≢ "") × (pos 0 <ℤ seconds event.common.timestamp))
  unfolding validate
  accepts_iff event = (
    λ h. (λ e. ground (arith, eq_iff event.common.schema_version ""), ground arith),
    λ h. ground (arith, h.0, h.1, eq_iff event.common.schema_version ""),
  )

  abbrev pub accepted : String × AnalyticsEvent P → Bool
  accepted (now, event) =
      not (str_eq event.common.schema_version "") && ltb_ℤ (pos 0) (seconds event.common.timestamp)

  -- The accepted events of a batch, with the two tags that enrichment adds.
  abbrev pub enriched : List (String × AnalyticsEvent P) → List (AnalyticsEvent P)
  enriched [] = []
  enriched ((now, event) ∷ events) =
      let rest = enriched events in if accepted (now, event) then enrich now event ∷ rest else rest

  abbrev pub rejected : String × AnalyticsEvent P → Bool
  rejected e = not (accepted e)

  pub process_valid :
      (now : String) (event : AnalyticsEvent P) (s : ProcessingStats)
      → validate event ≡ ok tt
      → process now event s ≡ (ok (enrich now event), count_processed s)
  unfolding process
  process_valid now event s h = rw h

  pub process_invalid :
      (now : String) (event : AnalyticsEvent P) (s : ProcessingStats) {e : ProcessingError}
      → validate event ≡ err e
      → process now event s ≡ (err e, s)
  unfolding process
  process_invalid now event s h = rw h

  process_lem :
      (now : String) (event : AnalyticsEvent P) (s : ProcessingStats)
      → (accepted (now, event) ≡ true)
          × (process now event s ≡ (ok (enrich now event), count_processed s))
        ⊎ (e : ProcessingError) × (accepted (now, event) ≡ false)
          × (process now event s ≡ (err e, s))
  unfolding process validate
  process_lem now event s = elim (Bool-cases (str_eq event.common.schema_version "")) [
    | inl h ↦ inr (schema_version_required, rw h, rw h)
    | inr h ↦ elim (Bool-cases (leb_ℤ (seconds event.common.timestamp) (pos 0))) [
      | inl k ↦ inr (invalid_timestamp, rw h (late _ k), rw (h, k))
      | inr k ↦ inl (rw h (early _ k), rw (h, k))
    ]
  ]

  -- A batch yields the accepted events, enriched and in their order, whatever the others are, and
  -- counts every event once: the counters of processed and of failed events grow by the accepted
  -- and the rejected ones, modulo 2^64. The counters before are 64-bit numbers.
  pub process_batch_lem :
      (events : List (String × AnalyticsEvent P)) (s : ProcessingStats)
      → s.events_processed ≤ u64_max
      → s.events_failed ≤ u64_max
      → process_batch events s ≡ (
        enriched events,
        record {
          events_processed = u64 (s.events_processed + count accepted events);
          events_failed = u64 (s.events_failed + count rejected events);
        },
      )
  unfolding process_batch
  process_batch_lem [] s p f = ground arith
  process_batch_lem ((now, event) ∷ events) s p f = elim (process_lem now event s) [
    | inl (a, e) ↦
        rw (e, a, process_batch_lem events (count_processed s) (omega arith) f) (ground arith)
    | inr (x, a, e) ↦
        rw (e, a, process_batch_lem events (count_failed s) p (omega arith)) (ground arith)
  ]

  -- Enrichment adds the time and the version of the pipeline, and keeps every other tag.
  pub lookup-enrich :
      (now k : String) (event : AnalyticsEvent P)
      → lookup k (enrich now event).common.tags ≡ (
          if str_eq "pipeline_version" k
          then some pipeline_version
          else if str_eq "processed_at" k
          then some now
          else lookup k event.common.tags)
  unfolding enrich
  lookup-enrich now k event = rw (lookup-insert, lookup-insert)
