-- ===== src/Analytics/Correlation/Run.antt =====
-- Sequences of events through the engine of src/analytics/correlation_engine.rs.
use analytics_hub.Prelude.{
  All-map, ℕ, ◌≡◌, ◌≢◌, refl, sym, ap, subst, ◌∙◌, Bool, true, none, some, List, [], ◌∷◌, All, ◌==◌,
  arith, Outcome, ok, err, is_ok, Bool-cases, inl, inr, leb, length, ◌>>=◌,
}
use analytics_hub.Prelude.Int.{ℤ}
use analytics_hub.Prelude.IdMap.{IdMap, lookup_id, remove_id, insert_id, retain}
use analytics_hub.Prelude.Float.{FloatOps}
use analytics_hub.Schema.Event.{AnalyticsEvent}
use analytics_hub.Analytics.Correlation.{
  CorrelationConfig, BufferedEvent, Correlation, CorrelationEngine, Draws, Tables, World,
  StoreError, CorrelationFaults,
}
use analytics_hub.Analytics.Correlation.Process.{
  buffered, new_engine, is_recent, cleanup_old_events, buffer_event, find_correlated_by_id,
  count_all, get_correlations, get_stats, detect_and_store, process_event,
}

-- A call of `process_event`, with what it draws and meets.
pub record Request (P : Type 0) : Type 0 where
  pub draws : Draws
  pub faults : CorrelationFaults
  pub now : ℤ
  pub event : AnalyticsEvent P

-- Each buffered event stands under its own identifier.
abbrev pub IsKeyed : IdMap BufferedEvent → Type 0
IsKeyed buffer = All (λ entry. entry.0 ≡ entry.1.event_id) buffer

module _ {V : Type 0} (Q : ℕ × V → Type 0) where
  All-retain : (keep : V → Bool) (l : IdMap V) → All Q l → All Q (retain keep l)
  unfolding retain
  All-retain keep [] h = tt
  All-retain keep (entry ∷ rest) h =
      let later = All-retain keep rest h.1 in
      elim (Bool-cases (keep (entry.1))) [ inl e ↦ rw e (h.0, later) | inr e ↦ rw e later ]

  pub All-remove_id :
      (key : ℕ) (l : IdMap V) → All Q l → All (λ entry. Q entry × (entry.0 ≢ key)) (remove_id key l)
  unfolding remove_id
  All-remove_id key [] h = tt
  All-remove_id key (entry ∷ rest) h =
      let later = All-remove_id key rest h.1 in
      elim (Bool-cases ((entry.0) == key)) [
        | inl e ↦ rw e later
        | inr e ↦ rw e ((h.0, λ p. ground arith), later)
      ]

-- `result?; Ok(a)`
pub then_ok-ok :
    {A B E : Type 0} (result : Outcome A E) {a b : B}
    → (result >>= λ _. ok a) ≡ ok b
    → (is_ok result ≡ true) × (a ≡ b)
then_ok-ok (ok x) e = ground arith
then_ok-ok (err x) e = ground arith

module _ {P : Type 0} {F : Type 0} (config : CorrelationConfig F) where
  -- The entry stands under its identifier, and if that is the event's, it is the event's entry.
  abbrev pub Own : AnalyticsEvent P → ℕ × BufferedEvent → Type 0
  Own event entry =
      (entry.0 ≡ entry.1.event_id)
      × (entry.1.event_id ≡ event.common.event_id → entry.1 ≡ buffered event)

  pub buffer_event-Own :
      (now : ℤ) (event : AnalyticsEvent P) (s : CorrelationEngine F)
      → IsKeyed s.event_buffer
      → All (Own event) (buffer_event config now event s).event_buffer
  unfolding buffer_event cleanup_old_events insert_id
  buffer_event-Own now event s h =
      let keyed = λ (entry : ℕ × BufferedEvent). entry.0 ≡ entry.1.event_id in
      let others : (l : IdMap BufferedEvent)
          → All keyed l
          → All (Own event) (remove_id event.common.event_id l) =
        λ l k.
          All-map _ (Own event) (λ entry q. (q.0, λ e. absurd (q.1 (q.0 ∙ e)))) _
            (All-remove_id keyed event.common.event_id l k) in
      elim (Bool-cases (leb config.max_buffer_size (length s.event_buffer))) [
        | inl e ↦ rw e ((refl, λ _. refl), others _ (All-retain keyed (is_recent config now) _ h))
        | inr e ↦ rw e ((refl, λ _. refl), others _ h)
      ]

module _ (f : FloatOps) {P : Type 0} (config : CorrelationConfig f.F) where
  -- A new engine.
  abbrev pub start : Tables P f.F → World P f.F
  start tables = record { engine = new_engine; tables = tables }

  unfoldable pub process_all : List (Request P) → World P f.F → World P f.F
  unfolding process_event
  process_all [] s = s
  process_all (r ∷ rs) s =
      process_all rs (process_event f config r.draws r.faults r.now r.event s).1

  detect_and_store_engine :
      (draws : Draws) (faults : CorrelationFaults) (event : AnalyticsEvent P) (s : World P f.F)
      (by_id : Outcome (List (Correlation f.F)) StoreError)
      → (detect_and_store f config draws faults event s by_id).1.engine ≡ s.engine
  unfolding detect_and_store
  detect_and_store_engine draws faults event s (err e) = refl
  detect_and_store_engine draws faults event s (ok by_id) = refl

  process_event_engine :
      (r : Request P) (s : World P f.F)
      → (process_event f config r.draws r.faults r.now r.event s).1.engine
        ≡ buffer_event config r.now r.event s.engine
  unfolding process_event
  process_event_engine r s =
      detect_and_store_engine r.draws r.faults r.event _
        (find_correlated_by_id {F = f.F} r.faults r.event.common.correlation_id)

  step-IsKeyed :
      (r : Request P) (s : World P f.F)
      → IsKeyed s.engine.event_buffer
      → IsKeyed (process_event f config r.draws r.faults r.now r.event s).1.engine.event_buffer
  step-IsKeyed r s h =
      subst (λ engine. IsKeyed engine.event_buffer) (sym (process_event_engine r s))
        (All-map (Own config r.event) _ (λ entry q. q.0) _
          (buffer_event-Own config r.now r.event s.engine h))

  pub process_all-IsKeyed :
      (rs : List (Request P)) (s : World P f.F)
      → IsKeyed s.engine.event_buffer
      → IsKeyed (process_all rs s).engine.event_buffer
  unfolding process_all
  process_all-IsKeyed [] s h = h
  process_all-IsKeyed (r ∷ rs) s h = process_all-IsKeyed rs _ (step-IsKeyed r s h)

  process_all_correlations :
      (rs : List (Request P)) (s : World P f.F)
      → (process_all rs s).engine.correlations ≡ s.engine.correlations
  unfolding process_all buffer_event
  process_all_correlations [] s = refl
  process_all_correlations (r ∷ rs) s =
      process_all_correlations rs _ ∙ ap (λ engine. engine.correlations) (process_event_engine r s)

  -- The engine's own map of correlations is never filled: after any events, whatever was detected,
  -- it answers none for an event, and counts none.
  pub correlations_forgotten :
      (rs : List (Request P)) (tables : Tables P f.F) (event_id : ℕ)
      → (get_correlations event_id (process_all rs (start tables)).engine ≡ [])
        × ((get_stats (process_all rs (start tables)).engine).total_correlations ≡ 0)
  unfolding get_correlations get_stats lookup_id
  correlations_forgotten rs tables event_id =
      let empty = process_all_correlations rs (start tables) in
      (ap (λ m. elim (lookup_id event_id m) [ none ↦ [] | some cs ↦ cs ]) empty, ap count_all empty)
