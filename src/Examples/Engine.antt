-- ===== src/Examples/Engine.antt =====
-- The aggregation engine and the anomaly detector at concrete inputs.
use analytics_hub.Prelude.{
  ℕ, ◌+◌, ◌*◌, ◌≡◌, ◌≢◌, refl, none, some, Bool, true, false, List, [], ◌∷◌, ◌++◌, ok, map, arith,
  inl,
}
use analytics_hub.Prelude.Int.{ℤ, pos}
use analytics_hub.Prelude.Dict.{lookup}
use analytics_hub.Schema.Event.{AnalyticsEvent}
use analytics_hub.Schema.Payload.{EventPayload, custom, number, no_fields, field}
use analytics_hub.Analytics.Window.{one_hour, align_to_window}
use analytics_hub.Analytics.Statistics.{sum_from}
use analytics_hub.Analytics.Engine.{AggregateKey, AggregationEngine, process_event, find_entry}
use analytics_hub.Analytics.Engine.Totals.{Update, updates, all_values, updates_accounted}
use analytics_hub.Analytics.Engine.Windows.{
  payloads_not_aggregated, update_all, single_row, late_values_alone,
}
use analytics_hub.Analytics.Anomaly.{
  AnomalyDetector, Anomaly, spike, drop, new_baseline, anomaly_at, check_anomaly,
}
use analytics_hub.Analytics.Anomaly.Baseline.{add_values, last_of, add_values_lem}
use analytics_hub.Analytics.Anomaly.Detection.{never_spike_or_drop}
use analytics_hub.Examples.Data.{hundredths, event}

abbrev empty_engine : AggregationEngine ℕ
empty_engine = record { aggregates = []; upserts = [] }

abbrev latency_event : AnalyticsEvent (EventPayload ℕ)
latency_event = record {
  common = (event 1).common;
  payload = custom (field "latency_ms" (number 12000) no_fields);
}

payloads_not_aggregated_example :
    process_event hundredths (λ tags. 7) (λ name window. false) latency_event empty_engine
    ≡ (ok tt, empty_engine)
payloads_not_aggregated_example =
    payloads_not_aggregated hundredths (λ tags. 7) (λ name window. false) latency_event empty_engine

abbrev key : AggregateKey
key = record { metric_name = "latency_ms"; window = one_hour; tags_hash = 7 }

abbrev point : Bool → ℕ → Update hundredths
point fails seconds = record {
  fails = fails;
  key = key;
  value = 12000;
  timestamp = pos (seconds * 1000000000);
  tags = [];
}

abbrev points : List (Update hundredths)
points = point false 30 ∷ point true 90 ∷ point false 120 ∷ point false 7200 ∷ []

updates_accounted_example :
    all_values (updates hundredths points empty_engine) ≡ all_values empty_engine + 4
updates_accounted_example = updates_accounted hundredths points empty_engine

-- Two values in one hour, more than a minute after it begins.
abbrev late : List (ℕ × ℤ)
late = (12000, pos 3700000000000) ∷ (13000, pos 3800000000000) ∷ []

aligned_3700 : align_to_window (pos 3700000000000) one_hour ≡ pos 3600000000000
unfolding align_to_window
aligned_3700 = refl

aligned_3800 : align_to_window (pos 3800000000000) one_hour ≡ pos 3600000000000
unfolding align_to_window
aligned_3800 = refl

no_entry : find_entry {F = ℕ} key [] ≡ none
unfolding find_entry
no_entry = refl

late_values_alone_example :
    (update_all hundredths key [] (pos 3600000000000) late empty_engine).upserts
    ≡ [] ++ map (single_row hundredths key [] (pos 3600000000000)) late
late_values_alone_example =
    late_values_alone hundredths key [] (pos 3600000000000) late empty_engine (inl no_entry)
      (aligned_3700, refl, (aligned_3800, refl, tt))

abbrev five : List (ℕ × ℤ)
five = (1, pos 1) ∷ (2, pos 2) ∷ (3, pos 3) ∷ (4, pos 4) ∷ (5, pos 5) ∷ []

add_values_lem_example :
    ((add_values five (new_baseline 3)).values ≡ last_of 3 (map (λ q. q.0) five))
    × ((add_values five (new_baseline 3)).timestamps ≡ last_of 3 (map (λ q. q.1) five))
add_values_lem_example = add_values_lem 3 five (omega arith)

-- Nine values of 1, and then one of 50.
abbrev ones : List ℕ
ones = 100 ∷ 100 ∷ 100 ∷ 100 ∷ 100 ∷ 100 ∷ 100 ∷ 100 ∷ 100 ∷ []

abbrev times : List ℤ
times = pos 1 ∷ pos 2 ∷ pos 3 ∷ pos 4 ∷ pos 5 ∷ pos 6 ∷ pos 7 ∷ pos 8 ∷ pos 9 ∷ []

abbrev detector : AnomalyDetector ℕ
detector = record {
  sensitivity = 150;
  baselines = ("load", record { values = ones; timestamps = times; max_size = 100 }) ∷ [];
  anomalies = [];
}

abbrev outlier : Anomaly ℕ
outlier =
    anomaly_at hundredths "load" 5000 (pos 10)
      (record { values = ones ++ 5000 ∷ []; timestamps = times ++ pos 10 ∷ []; max_size = 100 })

outlier_found : (check_anomaly hundredths "load" 5000 (pos 10) detector).0 ≡ some outlier
unfolding check_anomaly lookup sum_from
outlier_found = refl

never_spike_or_drop_example : (outlier.anomaly_type ≢ spike) × (outlier.anomaly_type ≢ drop)
never_spike_or_drop_example =
    never_spike_or_drop hundredths "load" 5000 (pos 10) detector refl refl outlier_found
