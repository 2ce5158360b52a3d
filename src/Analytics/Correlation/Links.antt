-- ===== src/Analytics/Correlation/Links.antt =====
-- Which events src/analytics/correlation_engine.rs links.
use mathlib.Core.Option.{some_inj}
use analytics_hub.Analytics.Correlation.Symmetry.{guards-of_some}
use analytics_hub.Prelude.{
  All-append, ℕ, ◌≡◌, ◌≢◌, sym, ap, subst, ◌∙◌, true, Option, none, some, List, All, ◌==◌, arith,
  Outcome, ok, err, Bool-cases, inl, inr,
}
use analytics_hub.Prelude.IdMap.{IdMap, lookup_id}
use analytics_hub.Prelude.Float.{FloatOps}
use analytics_hub.Schema.Event.{EventType, AnalyticsEvent}
use analytics_hub.Analytics.Correlation.{
  CorrelationConfig, BufferedEvent, Correlation, Draws, Tables, World, StoreError,
  CorrelationFaults, is_cost, is_security, is_telemetry, is_governance,
}
use analytics_hub.Analytics.Correlation.Detection.{
  in_time_window, calculate_temporal_strength, caused_by, temporal_with, performance_with,
  compliance_with, detect_causal_correlation,
}
use analytics_hub.Analytics.Correlation.Process.{
  detect, find_correlated_by_id, detect_and_store, process_event,
}
use analytics_hub.Analytics.Correlation.Kinds.{guard-of_some, detect-All}
use analytics_hub.Analytics.Correlation.Run.{
  Request, then_ok-ok, Own, buffer_event-Own, start, process_all, process_all-IsKeyed,
}

cost_not_telemetry : (t : EventType) → is_cost t ≡ true → is_telemetry t ≢ true
cost_not_telemetry t p q = ground arith

security_not_governance : (t : EventType) → is_security t ≡ true → is_governance t ≢ true
security_not_governance t p q = ground arith

module _ (f : FloatOps) where
  abbrev pub IsBetweenTwo : Correlation f.F → Type 0
  IsBetweenTwo c = c.source_event_id ≢ c.target_event_id

  module _ {P : Type 0} (config : CorrelationConfig f.F) (draws : Draws)
      (event : AnalyticsEvent P) where
    temporal-IsBetweenTwo :
        (other : BufferedEvent) (c : Correlation f.F)
        → temporal_with f config event draws other ≡ some c
        → IsBetweenTwo c
    unfolding temporal_with
    temporal-IsBetweenTwo other c e p =
        let h =
          guards-of_some (other.event_id == event.common.event_id)
            (in_time_window f config event other)
            (f.le config.min_strength (calculate_temporal_strength f config event other)) e in
        let own : event.common.event_id ≡ other.event_id =
          ap (λ d. d.source_event_id) h.3 ∙ p ∙ sym (ap (λ d. d.target_event_id) h.3) in
        ground (arith, h.0)

    performance-IsBetweenTwo :
        (entry : ℕ × BufferedEvent) (c : Correlation f.F)
        → is_cost event.common.event_type ≡ true
        → Own config event entry
        → performance_with f config event draws (entry.1) ≡ some c
        → IsBetweenTwo c
    unfolding performance_with
    performance-IsBetweenTwo entry c cost own e p =
        let outer = guard-of_some _ e in
        let inner = guard-of_some _ outer.1 in
        let same : event.common.event_id ≡ entry.1.event_id =
          ap (λ d. d.source_event_id) (some_inj.0 inner.1)
          ∙ p
          ∙ sym (ap (λ d. d.target_event_id) (some_inj.0 inner.1)) in
        cost_not_telemetry event.common.event_type cost
          (ap is_telemetry (sym (ap (λ b. b.event_type) (own.1 (sym same)))) ∙ outer.0)

    compliance-IsBetweenTwo :
        (entry : ℕ × BufferedEvent) (c : Correlation f.F)
        → is_security event.common.event_type ≡ true
        → Own config event entry
        → compliance_with f config event draws (entry.1) ≡ some c
        → IsBetweenTwo c
    unfolding compliance_with
    compliance-IsBetweenTwo entry c security own e p =
        let h = guard-of_some _ e in
        let same : event.common.event_id ≡ entry.1.event_id =
          ap (λ d. d.source_event_id) (some_inj.0 h.1)
          ∙ p
          ∙ sym (ap (λ d. d.target_event_id) (some_inj.0 h.1)) in
        security_not_governance event.common.event_type security
          (ap is_governance (sym (ap (λ b. b.event_type) (own.1 (sym same)))) ∙ h.0)

    causal-IsBetweenTwo :
        (buffer : IdMap BufferedEvent) (parent_id : ℕ) (c : Correlation f.F)
        → parent_id ≢ event.common.event_id
        → detect_causal_correlation f config event draws buffer parent_id ≡ some c
        → IsBetweenTwo c
    unfolding detect_causal_correlation
    causal-IsBetweenTwo buffer parent_id c other e = from_parent (lookup_id parent_id buffer) e
      where
        from_parent :
            (parent : Option BufferedEvent)
            → caused_by f config event draws parent_id parent ≡ some c
            → IsBetweenTwo c
        from_parent none n p = ground arith
        from_parent (some b) n p =
            let h = guard-of_some _ n in
            other (
              ap (λ d. d.source_event_id) (some_inj.0 h.1)
              ∙ p
              ∙ sym (ap (λ d. d.target_event_id) (some_inj.0 h.1)))

    detect-IsBetweenTwo :
        (buffer : IdMap BufferedEvent)
        → event.common.parent_event_id ≢ some event.common.event_id
        → All (Own config event) buffer
        → All IsBetweenTwo (detect f config draws event buffer)
    detect-IsBetweenTwo buffer other own =
        detect-All f config draws event (Own config event) IsBetweenTwo buffer own
          (λ p c e. causal-IsBetweenTwo buffer p c (λ q. other (e ∙ ap some q)))
          (λ entry c o. temporal-IsBetweenTwo (entry.1) c) performance-IsBetweenTwo
          compliance-IsBetweenTwo

  -- What a result lists.
  abbrev AllOf : Outcome (List (Correlation f.F)) StoreError → Type 0
  AllOf (ok cs) = All IsBetweenTwo cs
  AllOf (err e) = Unit

  found-AllOf :
      (faults : CorrelationFaults) (id : Option ℕ)
      → AllOf (find_correlated_by_id {F = f.F} faults id)
  found-AllOf faults none = tt
  found-AllOf faults (some id) = elim (Bool-cases faults.query_fails) [
    | inl e ↦ rw e tt
    | inr e ↦ rw e tt
  ]

  module _ {P : Type 0} (config : CorrelationConfig f.F) (r : Request P) (s : World P f.F) where
    detected-IsBetweenTwo :
        r.event.common.parent_event_id ≢ some r.event.common.event_id
        → All (Own config r.event) s.engine.event_buffer
        → (by_id : Outcome (List (Correlation f.F)) StoreError) → AllOf by_id
        → (cs : List (Correlation f.F))
        → (detect_and_store f config r.draws r.faults r.event s by_id).0 ≡ ok cs
        → All IsBetweenTwo cs
    unfolding detect_and_store
    detected-IsBetweenTwo other own (err x) found cs e = ground arith
    detected-IsBetweenTwo other own (ok l) found cs e =
        subst (All IsBetweenTwo) (then_ok-ok _ e).1 (
          All-append IsBetweenTwo _ _ found
            (detect-IsBetweenTwo config r.draws r.event _ other own))

  module _ {P : Type 0} (config : CorrelationConfig f.F) where
    -- No event is correlated with itself: whatever went through a new engine before, each
    -- correlation that is returned for an event links two events with different identifiers, where
    -- the event does not name itself as its parent.
    pub links_two_events :
        (rs : List (Request P)) (tables : Tables P f.F) (r : Request P)
        {cs : List (Correlation f.F)}
        → r.event.common.parent_event_id ≢ some r.event.common.event_id
        → (process_event f config r.draws r.faults r.now r.event
            (process_all f config rs (start f config tables))).0
          ≡ ok cs
        → All IsBetweenTwo cs
    unfolding process_event
    links_two_events rs tables r {cs} other e =
        let s = process_all f config rs (start f config tables) in
        let keyed = process_all-IsKeyed f config rs (start f config tables) tt in
        detected-IsBetweenTwo config r _ other
          (buffer_event-Own config r.now r.event s.engine keyed)
          (find_correlated_by_id {F = f.F} r.faults r.event.common.correlation_id)
          (found-AllOf r.faults r.event.common.correlation_id) cs e
