-- ===== src/Pipeline/Processing.antt =====
-- src/pipeline/processing.rs. `Utc::now().to_rfc3339()` is an argument of `enrich`; the counters are
-- `u64`. The statistics' `avg_processing_time_ms` is written nowhere and left out.
pub mod Batch
use analytics_hub.Prelude.{
  ℕ, ◌+◌, String, Bool, true, false, ◌||◌, List, [], ◌∷◌, Outcome, ok, err, if◌then◌else◌, u64,
}
use analytics_hub.Prelude.Int.{ℤ, pos, leb_ℤ}
use analytics_hub.Prelude.Dict.{insert, str_eq}
use analytics_hub.Prelude.Effects.{Effect, continue}
use analytics_hub.Schema.Event.{AnalyticsEvent, CommonEventFields, seconds}

pub record ProcessingStats : Type 0 where
  pub events_processed : ℕ
  pub events_failed : ℕ

pub data ProcessingError : Type 0 where
  schema_version_required invalid_timestamp : ProcessingError

-- `CARGO_PKG_VERSION`
abbrev pub pipeline_version : String
pipeline_version = "0.1.0"

abbrev pub count_processed : ProcessingStats → ProcessingStats
count_processed s = record s { events_processed = u64 (s.events_processed + 1) }

abbrev pub count_failed : ProcessingStats → ProcessingStats
count_failed s = record s { events_failed = u64 (s.events_failed + 1) }

module _ {P : Type 0} where
  unfoldable pub validate : AnalyticsEvent P → Outcome (Unit {0}) ProcessingError
  validate event =
      if str_eq event.common.schema_version ""
      then err schema_version_required
      else if leb_ℤ (seconds event.common.timestamp) (pos 0)
      then err invalid_timestamp
      else ok tt

  -- Two tags are inserted; nothing else of the event changes.
  unfoldable pub enrich : String → AnalyticsEvent P → AnalyticsEvent P
  enrich now event = record event {
    common = record (event.common) {
      tags =
          insert "pipeline_version" pipeline_version (insert "processed_at" now event.common.tags);
    };
  }

  process_validated :
      Outcome (Unit {0}) ProcessingError
      → String
      → AnalyticsEvent P
      → Effect ProcessingStats ProcessingError (AnalyticsEvent P)
  process_validated (ok _) now event stats = (ok (enrich now event), count_processed stats)
  process_validated (err e) now event stats = (err e, stats)

  unfoldable pub process :
      String → AnalyticsEvent P → Effect ProcessingStats ProcessingError (AnalyticsEvent P)
  unfolding process_validated
  process now event = process_validated (validate event) now event

  -- The `match` in the loop of `process_batch`: `rest` handles the events that follow.
  collect :
      Outcome (AnalyticsEvent P) ProcessingError
      → (ProcessingStats → List (AnalyticsEvent P) × ProcessingStats)
      → ProcessingStats
      → List (AnalyticsEvent P) × ProcessingStats
  collect (ok e) rest s = let (es, s') = rest s in (e ∷ es, s')
  collect (err _) rest s = rest (count_failed s)

  -- Each event comes with the time at which it is enriched.
  unfoldable pub process_batch :
      List (String × AnalyticsEvent P) → ProcessingStats → List (AnalyticsEvent P) × ProcessingStats
  unfolding collect
  process_batch [] s = ([], s)
  process_batch ((now, event) ∷ events) s =
      let (r, s') = process now event s in collect r (process_batch events) s'
