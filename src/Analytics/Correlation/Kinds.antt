-- ===== src/Analytics/Correlation/Kinds.antt =====
-- What holds of each kind of correlation of src/analytics/correlation_engine.rs holds of all that
-- are detected.
use analytics_hub.Prelude.{
  All-append, ℕ, ◌≡◌, refl, Bool, true, false, Option, none, some, List, [], ◌∷◌, All, arith,
  if◌then◌else◌,
}
use analytics_hub.Prelude.IdMap.{IdMap}
use analytics_hub.Prelude.Float.{FloatOps}
use analytics_hub.Schema.Event.{AnalyticsEvent}
use analytics_hub.Analytics.Correlation.{
  CorrelationConfig, BufferedEvent, Correlation, Draws, is_cost, is_security,
}
use analytics_hub.Analytics.Correlation.Detection.{
  push, for_entries, temporal_with, performance_with, compliance_with, detect_causal_correlation,
  detect_temporal_correlations, detect_cross_module_correlations, find_performance_impact,
  find_compliance_impact,
}
use analytics_hub.Analytics.Correlation.Process.{causes, detect}

pub guard-of_some :
    {A : Type 0} (b : Bool) {x : Option A} {c : A}
    → (if b then x else none) ≡ some c
    → (b ≡ true) × (x ≡ some c)
guard-of_some true e = (refl, e)
guard-of_some false e = ground arith

module _ (f : FloatOps) where
  All-push :
      (Q : Correlation f.F → Type 0) (o : Option (Correlation f.F)) (l : List (Correlation f.F))
      → ((c : Correlation f.F) → o ≡ some c → Q c)
      → All Q l
      → All Q (push f o l)
  All-push Q none l h k = k
  All-push Q (some c) l h k = (h c refl, k)

  All-for_entries :
      (R : ℕ × BufferedEvent → Type 0) (Q : Correlation f.F → Type 0)
      (find : BufferedEvent → Option (Correlation f.F))
      → ((entry : ℕ × BufferedEvent) (c : Correlation f.F)
          → R entry
          → find (entry.1) ≡ some c
          → Q c)
      → (l : IdMap BufferedEvent) → All R l
      → All Q (for_entries f find l)
  unfolding for_entries
  All-for_entries R Q find step [] h = tt
  All-for_entries R Q find step (entry ∷ l) h =
      All-push Q (find (entry.1)) _ (λ c e. step entry c h.0 e)
        (All-for_entries R Q find step l h.1)

  All-if :
      (Q : Correlation f.F → Type 0) (b : Bool) (l : List (Correlation f.F))
      → (b ≡ true → All Q l)
      → All Q (if b then l else [])
  All-if Q true l h = h refl
  All-if Q false l h = tt

  module _ {P : Type 0} (config : CorrelationConfig f.F) (draws : Draws)
      (event : AnalyticsEvent P) where
    causes-All :
        (Q : Correlation f.F → Type 0) (buffer : IdMap BufferedEvent) (parent : Option ℕ)
        → ((parent_id : ℕ) (c : Correlation f.F)
            → parent ≡ some parent_id
            → detect_causal_correlation f config event draws buffer parent_id ≡ some c
            → Q c)
        → All Q (causes f config draws event buffer parent)
    causes-All Q buffer none step = tt
    causes-All Q buffer (some parent_id) step = All-push Q _ [] (λ c e. step parent_id c refl e) tt

    -- What holds of each kind of correlation holds of all that are detected.
    pub detect-All :
        (R : ℕ × BufferedEvent → Type 0) (Q : Correlation f.F → Type 0)
        (buffer : IdMap BufferedEvent)
        → All R buffer
        → ((parent_id : ℕ) (c : Correlation f.F)
            → event.common.parent_event_id ≡ some parent_id
            → detect_causal_correlation f config event draws buffer parent_id ≡ some c
            → Q c)
        → ((entry : ℕ × BufferedEvent) (c : Correlation f.F)
            → R entry
            → temporal_with f config event draws (entry.1) ≡ some c
            → Q c)
        → ((entry : ℕ × BufferedEvent) (c : Correlation f.F)
            → is_cost event.common.event_type ≡ true
            → R entry
            → performance_with f config event draws (entry.1) ≡ some c
            → Q c)
        → ((entry : ℕ × BufferedEvent) (c : Correlation f.F)
            → is_security event.common.event_type ≡ true
            → R entry
            → compliance_with f config event draws (entry.1) ≡ some c
            → Q c)
        → All Q (detect f config draws event buffer)
    unfolding detect detect_temporal_correlations detect_cross_module_correlations
        find_performance_impact find_compliance_impact
    detect-All R Q buffer h causal temporal performance compliance =
        let kind = event.common.event_type in
        All-append Q _ _
          (All-append Q _ _ (causes-All Q buffer event.common.parent_event_id causal)
            (All-for_entries R Q (temporal_with f config event draws) temporal buffer h))
          (All-append Q _ _
            (All-if Q (is_cost kind) _ (λ t.
              All-for_entries R Q (performance_with f config event draws)
                (λ entry c. performance entry c t) buffer h))
            (All-if Q (is_security kind) _ (λ t.
              All-for_entries R Q (compliance_with f config event draws)
                (λ entry c. compliance entry c t) buffer h)))
