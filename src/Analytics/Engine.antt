-- ===== src/Analytics/Engine.antt =====
-- `AggregationEngine` of src/analytics/aggregation_engine.rs: the open aggregates by key, and the
-- upserts on `aggregated_metrics` of src/database/mod.rs that it has sent, oldest first. They are no
-- table: an upsert replaces the row of its key, so that the table holds the last one for each. The hash of the tags is the standard library's and an argument; a metric is
-- updated under the lock of its entry.
pub mod Flush
pub mod Totals
pub mod Windows
use analytics_hub.Prelude.{
  ℕ, zero, suc, ◌+◌, String, Option, none, some, Bool, true, false, ◌&&◌, List, [], ◌∷◌, ◌++◌,
  Outcome, ok, err, if◌then◌else◌, ◌==◌,
}
use analytics_hub.Prelude.Int.{ℤ, add_ℕ, leb_ℤ}
use analytics_hub.Prelude.Dict.{Dict, str_eq}
use analytics_hub.Prelude.Float.{FloatOps}
use analytics_hub.Prelude.Effects.{Effect, for_each, continue}
use analytics_hub.Schema.Event.{AnalyticsEvent}
use analytics_hub.Schema.Payload.{
  Value, number, object, Fields, no_fields, field, EventPayload, to_value,
}
use analytics_hub.Storage.{DbError, unavailable}
use analytics_hub.Analytics.Window.{TimeWindow, to_seconds, all_windows, align_to_window}
use analytics_hub.Analytics.Statistics.{StatisticalMeasures, compute_statistics}

pub record AggregateKey : Type 0 where
  pub metric_name : String
  pub window : TimeWindow
  pub tags_hash : ℕ

pub record WindowedAggregates (F : Type 0) : Type 0 where
  pub window_start : ℤ
  pub window_duration : ℕ
  pub values : List F

-- A row that `store_aggregated_metric` upserts.
pub record MetricRow (F : Type 0) : Type 0 where
  pub metric_name : String
  pub window : TimeWindow
  pub window_start : ℤ
  pub tags : Dict String
  pub measures : StatisticalMeasures F

pub record AggregationEngine (F : Type 0) : Type 0 where
  pub aggregates : List (AggregateKey × WindowedAggregates F)
  pub upserts : List (MetricRow F)

unfoldable pub key_eq : AggregateKey → AggregateKey → Bool
key_eq a b =
    str_eq a.metric_name b.metric_name
    && (to_seconds a.window == to_seconds b.window)
    && (a.tags_hash == b.tags_hash)

module _ {F : Type 0} where
  -- `WindowedAggregates::new`: one minute, in nanoseconds.
  abbrev pub new_aggregates : ℤ → WindowedAggregates F
  new_aggregates window_start = record {
    window_start = window_start;
    window_duration = 60000000000;
    values = [];
  }

  abbrev pub add_value : F → WindowedAggregates F → WindowedAggregates F
  add_value v a = record a { values = a.values ++ v ∷ [] }

  unfoldable pub window_end : WindowedAggregates F → ℤ
  window_end a = add_ℕ a.window_start a.window_duration

  unfoldable pub find_entry :
      AggregateKey → List (AggregateKey × WindowedAggregates F) → Option (WindowedAggregates F)
  find_entry k [] = none
  find_entry k ((j, a) ∷ l) = let rest = find_entry k l in if key_eq j k then some a else rest

  unfoldable pub put_entry :
      AggregateKey
      → WindowedAggregates F
      → List (AggregateKey × WindowedAggregates F)
      → List (AggregateKey × WindowedAggregates F)
  put_entry k a [] = (k, a) ∷ []
  put_entry k a ((j, b) ∷ l) =
      let rest = put_entry k a l in if key_eq j k then (j, a) ∷ l else (j, b) ∷ rest

  -- `or_insert_with`
  abbrev pub or_new : ℤ → Option (WindowedAggregates F) → WindowedAggregates F
  or_new start none = new_aggregates start
  or_new start (some a) = a

  abbrev pub with_entry :
      AggregateKey → WindowedAggregates F → AggregationEngine F → AggregationEngine F
  with_entry k a s = record s { aggregates = put_entry k a s.aggregates }

  -- The numbers among the fields of an object.
  unfoldable pub number_fields : Fields F → List (String × F)
  number_fields no_fields = []
  number_fields (field key (number num) rest) = (key, num) ∷ number_fields rest
  number_fields (field key _ rest) = number_fields rest

  abbrev pub numbers_of : Value F → List (String × F)
  numbers_of (object obj) = number_fields obj
  numbers_of _ = []

  unfoldable pub extract_metrics : EventPayload F → List (String × F)
  unfolding to_value number_fields
  extract_metrics payload = numbers_of (to_value payload)

module _ (f : FloatOps) where
  abbrev pub row_of : AggregateKey → Dict String → WindowedAggregates f.F → MetricRow f.F
  row_of k tags a = record {
    metric_name = k.metric_name;
    window = k.window;
    window_start = a.window_start;
    tags = tags;
    measures = compute_statistics f a.values;
  }

  -- The flush of a window: the value is in the entry when the statement fails.
  unfoldable pub flush_window :
      Bool
      → AggregateKey
      → ℤ
      → Dict String
      → WindowedAggregates f.F
      → Effect (AggregationEngine f.F) DbError (Unit {0})
  flush_window true k start tags a s = (err unavailable, with_entry k a s)
  flush_window false k start tags a s = (
    ok tt,
    record (with_entry k (new_aggregates start) s) { upserts = s.upserts ++ row_of k tags a ∷ [] },
  )

  -- `update_aggregation`, under the key that it builds.
  unfoldable pub update_entry :
      Bool
      → AggregateKey
      → f.F
      → ℤ
      → Dict String
      → Effect (AggregationEngine f.F) DbError (Unit {0})
  unfolding flush_window window_end
  update_entry fails k value timestamp tags s =
      let start = align_to_window timestamp k.window in
      let a = add_value value (or_new start (find_entry k s.aggregates)) in
      if leb_ℤ (window_end a) timestamp
      then flush_window fails k start tags a s
      else (ok tt, with_entry k a s)

  module _ (hash_tags : Dict String → ℕ) where
    unfoldable pub update_aggregation :
        Bool
        → String
        → f.F
        → TimeWindow
        → ℤ
        → Dict String
        → Effect (AggregationEngine f.F) DbError (Unit {0})
    unfolding update_entry
    update_aggregation fails metric_name value window timestamp tags =
        update_entry fails
          (record { metric_name = metric_name; window = window; tags_hash = hash_tags tags }) value
          timestamp tags

    -- `AggregationEngine::process_event`; which statements fail is an argument.
    unfoldable pub process_event :
        (String → TimeWindow → Bool)
        → AnalyticsEvent (EventPayload f.F)
        → Effect (AggregationEngine f.F) DbError (Unit {0})
    unfolding all_windows extract_metrics
    process_event fails event =
        for_each
          (λ m.
            for_each
              (λ window.
                update_aggregation (fails (m.0) window) (m.0) (m.1) window event.common.timestamp
                  event.common.tags)
              all_windows)
          (extract_metrics event.payload)

  abbrev pub is_empty : List f.F → Bool
  is_empty [] = true
  is_empty (v ∷ vs) = false

  -- The loop of `flush_all`, with the entries that are left and the rows flushed so far.
  unfoldable pub flush_entries :
      (AggregateKey → Bool)
      → List (AggregateKey × WindowedAggregates f.F)
      → ℕ
      → Effect (AggregationEngine f.F) DbError ℕ
  flush_entries fails [] flushed s = (ok flushed, s)
  flush_entries fails ((k, a) ∷ l) flushed s =
      let skipped = flush_entries fails l flushed s in
      let stored =
        flush_entries fails l (suc flushed)
          (record s { upserts = s.upserts ++ row_of k [] a ∷ [] }) in
      if is_empty a.values then skipped else if fails k then (err unavailable, s) else stored

  unfoldable pub flush_all : (AggregateKey → Bool) → Effect (AggregationEngine f.F) DbError ℕ
  unfolding flush_entries
  flush_all fails s = flush_entries fails s.aggregates 0 s
