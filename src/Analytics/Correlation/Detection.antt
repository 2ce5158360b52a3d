-- ===== src/Analytics/Correlation/Detection.antt =====
-- What src/analytics/correlation_engine.rs detects between an event and the buffered ones. The
-- literals of the source are quotients of whole numbers, which f64 rounds to the same values.
use analytics_hub.Prelude.{
  ℕ, Option, none, some, Bool, ◌&&◌, List, [], ◌∷◌, ◌++◌, ltb, ◌==◌, if◌then◌else◌,
}
use analytics_hub.Prelude.Int.{ℤ, pos, negsuc, leb_ℤ, sub_ℤ, add_ℤ}
use analytics_hub.Prelude.IdMap.{IdMap, lookup_id}
use analytics_hub.Prelude.Float.{FloatOps}
use analytics_hub.Schema.Event.{AnalyticsEvent}
use analytics_hub.Analytics.Correlation.{
  CorrelationType, causal, temporal, performance, compliance, CorrelationConfig, BufferedEvent,
  Correlation, Draws, module_eq, is_cost, is_security, is_telemetry, is_governance, num_seconds,
  seconds_apart,
}

module _ (f : FloatOps) where
  abbrev pub ratio : ℕ → ℕ → f.F
  ratio a b = f.div (f.of_nat a) (f.of_nat b)

  -- `as f64` of a signed number.
  abbrev pub of_int : ℤ → f.F
  of_int (pos n) = f.of_nat n
  of_int (negsuc n) = f.sub (f.of_nat 0) (f.add (f.of_nat n) (f.of_nat 1))

  abbrev pub calculate_causal_strength : f.F
  calculate_causal_strength = ratio 9 10

  abbrev pub correlation_of : Draws → CorrelationType → ℕ → ℕ → f.F → Correlation f.F
  correlation_of draws kind source target strength = record {
    correlation_id = draws.new_v4 kind source target;
    correlation_type = kind;
    source_event_id = source;
    target_event_id = target;
    strength = strength;
    metadata = [];
    detected_at = draws.now kind source target;
  }

  abbrev pub push : Option (Correlation f.F) → List (Correlation f.F) → List (Correlation f.F)
  push none found = found
  push (some c) found = c ∷ found

  -- A loop over the entries of the buffer that pushes what it finds.
  unfoldable pub for_entries :
      (BufferedEvent → Option (Correlation f.F)) → IdMap BufferedEvent → List (Correlation f.F)
  for_entries find [] = []
  for_entries find (entry ∷ rest) = let later = for_entries find rest in push (find (entry.1)) later

  module _ {P : Type 0} (config : CorrelationConfig f.F) (event : AnalyticsEvent P) where
    -- By the seconds between the events, and whether they are of the same module.
    abbrev pub strength_at : ℕ → Bool → f.F
    strength_at seconds same_module =
        let window_seconds = of_int (num_seconds config.time_window) in
        let time_strength = f.sub (f.of_nat 1) (f.div (f.of_nat seconds) window_seconds) in
        let module_factor = if same_module then ratio 1 2 else f.of_nat 1 in
        f.min (f.max (f.mul time_strength module_factor) (f.of_nat 0)) (f.of_nat 1)

    unfoldable pub calculate_temporal_strength : BufferedEvent → f.F
    calculate_temporal_strength other =
        strength_at (seconds_apart event.common.timestamp other.timestamp)
          (module_eq event.common.source_module other.source_module)

    abbrev pub in_time_window : BufferedEvent → Bool
    in_time_window other =
        leb_ℤ (sub_ℤ event.common.timestamp config.time_window) other.timestamp
        && leb_ℤ other.timestamp (add_ℤ event.common.timestamp config.time_window)

    module _ (draws : Draws) where
      abbrev pub caused_by : ℕ → Option BufferedEvent → Option (Correlation f.F)
      caused_by parent_id none = none
      caused_by parent_id (some parent) =
          if f.le config.min_strength calculate_causal_strength
          then some (
              correlation_of draws causal parent_id event.common.event_id calculate_causal_strength)
          else none

      unfoldable pub detect_causal_correlation : IdMap BufferedEvent → ℕ → Option (Correlation f.F)
      detect_causal_correlation buffer parent_id = caused_by parent_id (lookup_id parent_id buffer)

      unfoldable pub temporal_with : BufferedEvent → Option (Correlation f.F)
      unfolding calculate_temporal_strength
      temporal_with other =
          let strength = calculate_temporal_strength other in
          if other.event_id == event.common.event_id
          then none
          else if in_time_window other
          then (if f.le config.min_strength strength
              then some
                  (correlation_of draws temporal event.common.event_id other.event_id strength)
              else none)
          else none

      unfoldable pub detect_temporal_correlations : IdMap BufferedEvent → List (Correlation f.F)
      unfolding for_entries temporal_with
      detect_temporal_correlations buffer = for_entries temporal_with buffer

      unfoldable pub performance_with : BufferedEvent → Option (Correlation f.F)
      performance_with other =
          if is_telemetry other.event_type
          then (if ltb (seconds_apart event.common.timestamp other.timestamp) 60
              then some (
                  correlation_of draws performance event.common.event_id other.event_id
                    (ratio 8 10))
              else none)
          else none

      unfoldable pub find_performance_impact : IdMap BufferedEvent → List (Correlation f.F)
      unfolding for_entries performance_with
      find_performance_impact buffer = for_entries performance_with buffer

      unfoldable pub compliance_with : BufferedEvent → Option (Correlation f.F)
      compliance_with other =
          if is_governance other.event_type
          then some
              (correlation_of draws compliance event.common.event_id other.event_id (ratio 3 4))
          else none

      unfoldable pub find_compliance_impact : IdMap BufferedEvent → List (Correlation f.F)
      unfolding for_entries compliance_with
      find_compliance_impact buffer = for_entries compliance_with buffer

      unfoldable pub detect_cross_module_correlations : IdMap BufferedEvent → List (Correlation f.F)
      unfolding find_performance_impact find_compliance_impact
      detect_cross_module_correlations buffer =
          (if is_cost event.common.event_type then find_performance_impact buffer else [])
          ++ (if is_security event.common.event_type then find_compliance_impact buffer else [])
