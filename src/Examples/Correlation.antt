-- ===== src/Examples/Correlation.antt =====
-- Correlations at concrete inputs.
use mathlib.Core.List.{Perm}
use mathlib.Core.List.Perm
use analytics_hub.Prelude.{ℕ, ◌+◌, ◌*◌, ◌≡◌, refl, String, false, List, [], ◌∷◌, All, arith, ok}
use analytics_hub.Prelude.Int.{pos, sub_ℤ, add_ℤ}
use analytics_hub.Prelude.IdMap.{IdMap, lookup_id, insert_id, remove_id, retain}
use analytics_hub.Storage.{find}
use analytics_hub.Analytics.Correlation.{
  CorrelationConfig, BufferedEvent, Correlation, temporal, Draws, Tables, CorrelationFaults,
}
use analytics_hub.Analytics.Correlation.Detection.{
  correlation_of, calculate_temporal_strength, temporal_with, for_entries,
}
use analytics_hub.Analytics.Correlation.Process.{
  buffered, buffer_event, cleanup_old_events, get_correlations, get_stats, store_correlation,
  store_all, detect, detect_and_store, process_event,
}
use analytics_hub.Analytics.Correlation.Order.{SameEntries, detect_order_free}
use analytics_hub.Analytics.Correlation.Run.{Request, start, process_all, correlations_forgotten}
use analytics_hub.Analytics.Correlation.Links.{IsBetweenTwo, links_two_events}
use analytics_hub.Analytics.Correlation.Stored.{Leaves, processed, process_event_stores}
use analytics_hub.Examples.Data.{hundredths, event}

-- Five minutes, a strength of 0.4, and room for one event.
abbrev config : CorrelationConfig ℕ
config = record { time_window = pos 300000000000; min_strength = 40; max_buffer_size = 1 }

abbrev draws : Draws
draws = record { new_v4 = λ kind a b. 100 * a + b; now = λ kind a b. pos 1700000000000000000 }

abbrev no_faults : CorrelationFaults
no_faults = record { query_fails = false; insert_fails = λ i. false }

abbrev request : ℕ → Request String
request i = record {
  draws = draws;
  faults = no_faults;
  now = pos 1700000000000000000;
  event = event i;
}

abbrev tables : Tables String ℕ
tables = record { events = event 1 ∷ event 2 ∷ []; correlations = [] }

abbrev one_two : IdMap BufferedEvent
one_two = (1, buffered (event 1)) ∷ (2, buffered (event 2)) ∷ []

abbrev two_one : IdMap BufferedEvent
two_one = (2, buffered (event 2)) ∷ (1, buffered (event 1)) ∷ []

one_two_same : SameEntries one_two two_one
unfolding lookup_id
one_two_same = record {
  same_entries = Perm.swap (2, buffered (event 2)) (1, buffered (event 1)) [];
  same_lookup = λ key. ground arith;
}

detect_order_free_example :
    Perm
      (detect hundredths config draws (event 3) one_two)
      (detect hundredths config draws (event 3) two_one)
detect_order_free_example = detect_order_free hundredths config draws (event 3) one_two_same

correlations_forgotten_example :
    (get_correlations 2
        (process_all hundredths config
          (request 1 ∷ request 2 ∷ [])
          (start hundredths config tables)).engine
      ≡ [])
    × ((get_stats
          (process_all hundredths config
            (request 1 ∷ request 2 ∷ [])
            (start hundredths config tables)).engine).total_correlations
        ≡ 0)
correlations_forgotten_example =
    correlations_forgotten hundredths config (request 1 ∷ request 2 ∷ []) tables 2

abbrev found : List (Correlation ℕ)
found = correlation_of hundredths draws temporal 2 1 50 ∷ []

found_for_two :
    (process_event hundredths config draws no_faults
      (pos 1700000000000000000)
      (event 2)
      (process_all hundredths config (request 1 ∷ []) (start hundredths config tables))).0
    ≡ ok found
unfolding process_event process_all buffer_event cleanup_old_events retain insert_id remove_id
    detect_and_store detect for_entries temporal_with calculate_temporal_strength sub_ℤ add_ℤ
    store_all store_correlation find
found_for_two = refl

links_two_events_example : All (IsBetweenTwo hundredths) found
links_two_events_example =
    links_two_events hundredths config (request 1 ∷ []) tables (request 2) (λ e. ground arith)
      found_for_two

process_event_stores_example :
    (front : List (Correlation ℕ)) × Leaves hundredths config
      (request 2)
      (process_all hundredths config (request 1 ∷ []) (start hundredths config tables))
      front
      (processed hundredths config
        (request 2)
        (process_all hundredths config (request 1 ∷ []) (start hundredths config tables)))
process_event_stores_example =
    process_event_stores hundredths config (request 2)
      (process_all hundredths config (request 1 ∷ []) (start hundredths config tables))
