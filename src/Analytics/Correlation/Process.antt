-- ===== src/Analytics/Correlation/Process.antt =====
-- The engine of src/analytics/correlation_engine.rs: the buffer, and what is stored.
use analytics_hub.Prelude.{
  ℕ, suc, ◌+◌, Option, none, some, Bool, true, false, ◌&&◌, List, [], ◌∷◌, ◌++◌, length, leb, ◌==◌,
  if◌then◌else◌, Outcome, ok, err, ◌>>=◌,
}
use analytics_hub.Prelude.Int.{ℤ, ltb_ℤ, sub_ℤ, mul_ℕ}
use analytics_hub.Prelude.IdMap.{IdMap, lookup_id, insert_id, retain}
use analytics_hub.Prelude.Float.{FloatOps}
use analytics_hub.Schema.Event.{AnalyticsEvent}
use analytics_hub.Storage.{unavailable, unique_violation, has}
use analytics_hub.Analytics.Correlation.{
  CorrelationConfig, BufferedEvent, Correlation, CorrelationEngine, CorrelationStats, Draws,
  CorrelationRow, Tables, World, StoreError, refused, foreign_key_violation, CorrelationFaults,
  correlation_name,
}
use analytics_hub.Analytics.Correlation.Detection.{
  push, detect_causal_correlation, detect_temporal_correlations, detect_cross_module_correlations,
}

module _ {P : Type 0} where
  abbrev pub buffered : AnalyticsEvent P → BufferedEvent
  buffered event = record {
    event_id = event.common.event_id;
    timestamp = event.common.timestamp;
    source_module = event.common.source_module;
    event_type = event.common.event_type;
    correlation_id = event.common.correlation_id;
    parent_event_id = event.common.parent_event_id;
  }

-- `?` after a statement.
abbrev pub and_then :
    {T : Type 0}
    → Outcome (Unit {0}) StoreError × T
    → (T → Outcome (Unit {0}) StoreError × T)
    → Outcome (Unit {0}) StoreError × T
and_then (ok _, t) next = next t
and_then (err e, t) next = (err e, t)

module _ {F : Type 0} where
  abbrev pub new_engine : CorrelationEngine F
  new_engine = record { event_buffer = []; correlations = [] }

  abbrev pub is_recent : CorrelationConfig F → ℤ → BufferedEvent → Bool
  is_recent config now e = ltb_ℤ (sub_ℤ now (mul_ℕ config.time_window 2)) e.timestamp

  unfoldable pub cleanup_old_events :
      CorrelationConfig F → ℤ → IdMap BufferedEvent → IdMap BufferedEvent
  unfolding retain
  cleanup_old_events config now buffer = retain (is_recent config now) buffer

  -- `now` is the time of a cleanup.
  unfoldable pub buffer_event :
      {P : Type 0}
      → CorrelationConfig F
      → ℤ
      → AnalyticsEvent P
      → CorrelationEngine F
      → CorrelationEngine F
  unfolding cleanup_old_events insert_id
  buffer_event config now event s =
      let kept =
        if leb config.max_buffer_size (length s.event_buffer)
        then cleanup_old_events config now s.event_buffer
        else s.event_buffer in
      record s { event_buffer = insert_id event.common.event_id (buffered event) kept }

  abbrev pub row_of : Correlation F → CorrelationRow F
  row_of c = record {
    correlation_id = c.correlation_id;
    correlation_type = correlation_name c.correlation_type;
    source_event_id = c.source_event_id;
    target_event_id = c.target_event_id;
    strength = c.strength;
    metadata = c.metadata;
  }

  abbrev pub has_row : ℕ → List (CorrelationRow F) → Bool
  has_row i [] = false
  has_row i (r ∷ rows) = let later = has_row i rows in if r.correlation_id == i then true else later

  -- `CorrelationEngine::store_correlation`, which inserts by `Database::store_correlation`.
  unfoldable pub store_correlation :
      {P : Type 0} → Bool → Correlation F → Tables P F → Outcome (Unit {0}) StoreError × Tables P F
  store_correlation fails c t =
      if fails
      then (err (refused unavailable), t)
      else if has_row c.correlation_id t.correlations
      then (err (refused unique_violation), t)
      else if has c.source_event_id t.events && has c.target_event_id t.events
      then (ok tt, record t { correlations = t.correlations ++ row_of c ∷ [] })
      else (err foreign_key_violation, t)

  -- The loop over the detected correlations, from the `i`-th on.
  unfoldable pub store_all :
      {P : Type 0}
      → (ℕ → Bool)
      → ℕ
      → List (Correlation F)
      → Tables P F
      → Outcome (Unit {0}) StoreError × Tables P F
  unfolding store_correlation
  store_all fails i [] t = (ok tt, t)
  store_all fails i (c ∷ cs) t =
      and_then (store_correlation (fails i) c t) (store_all fails (suc i) cs)

  -- The rows that the query answers are dropped.
  abbrev pub find_correlated_by_id :
      CorrelationFaults → Option ℕ → Outcome (List (Correlation F)) StoreError
  find_correlated_by_id faults none = ok []
  find_correlated_by_id faults (some correlation_id) =
      if faults.query_fails then err (refused unavailable) else ok []

  unfoldable pub get_correlations : ℕ → CorrelationEngine F → List (Correlation F)
  get_correlations event_id s = elim (lookup_id event_id s.correlations) [
    | none ↦ []
    | some cs ↦ cs
  ]

  abbrev pub count_all : IdMap (List (Correlation F)) → ℕ
  count_all [] = 0
  count_all (entry ∷ rest) = length (entry.1) + count_all rest

  unfoldable pub get_stats : CorrelationEngine F → CorrelationStats
  get_stats s = record {
    buffered_events = length s.event_buffer;
    total_correlations = count_all s.correlations;
  }

module _ (f : FloatOps) {P : Type 0} (config : CorrelationConfig f.F) where
  abbrev pub causes :
      Draws → AnalyticsEvent P → IdMap BufferedEvent → Option ℕ → List (Correlation f.F)
  causes draws event buffer none = []
  causes draws event buffer (some parent_id) =
      push f (detect_causal_correlation f config event draws buffer parent_id) []

  -- What is pushed after the correlations by identifier.
  unfoldable pub detect : Draws → AnalyticsEvent P → IdMap BufferedEvent → List (Correlation f.F)
  unfolding detect_causal_correlation detect_temporal_correlations detect_cross_module_correlations
  detect draws event buffer =
      causes draws event buffer event.common.parent_event_id
      ++ detect_temporal_correlations f config event draws buffer
      ++ detect_cross_module_correlations f config event draws buffer

  -- What `process_event` does with the correlations by identifier.
  unfoldable pub detect_and_store :
      Draws
      → CorrelationFaults
      → AnalyticsEvent P
      → World P f.F
      → Outcome (List (Correlation f.F)) StoreError
      → Outcome (List (Correlation f.F)) StoreError × World P f.F
  unfolding detect store_all
  detect_and_store draws faults event s (err e) = (err e, s)
  detect_and_store draws faults event s (ok by_id) =
      let detected = by_id ++ detect draws event s.engine.event_buffer in
      let stored = store_all faults.insert_fails 0 detected s.tables in
      (stored.0 >>= λ _. ok detected, record s { tables = stored.1 })

  -- The engine is changed before anything can fail.
  unfoldable pub process_event :
      Draws
      → CorrelationFaults
      → ℤ
      → AnalyticsEvent P
      → World P f.F
      → Outcome (List (Correlation f.F)) StoreError × World P f.F
  unfolding buffer_event detect_and_store
  process_event draws faults now event s =
      detect_and_store draws faults event
        (record s { engine = buffer_event config now event s.engine })
        (find_correlated_by_id {F = f.F} faults event.common.correlation_id)
