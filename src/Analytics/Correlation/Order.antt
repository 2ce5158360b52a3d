-- ===== src/Analytics/Correlation/Order.antt =====
-- The order in which src/analytics/correlation_engine.rs comes upon the buffered events, which its
-- map leaves open.
use mathlib.Core.List.{Perm, Permᴰ}
use mathlib.Core.List.Perm
use mathlib.Core.List.Permᴰ
use mathlib.Core.Logic.{∥∥₁_map}
use analytics_hub.Prelude.{
  ℕ, ◌≡◌, refl, ap, subst, Bool, true, false, Option, none, some, List, [], ◌∷◌, ◌++◌,
  if◌then◌else◌,
}
use analytics_hub.Prelude.IdMap.{IdMap, lookup_id}
use analytics_hub.Prelude.Float.{FloatOps}
use analytics_hub.Schema.Event.{AnalyticsEvent}
use analytics_hub.Analytics.Correlation.{
  CorrelationConfig, BufferedEvent, Correlation, Draws, is_cost, is_security,
}
use analytics_hub.Analytics.Correlation.Detection.{
  temporal_with, performance_with, compliance_with, push, caused_by, for_entries,
  detect_causal_correlation, detect_temporal_correlations, detect_cross_module_correlations,
  find_performance_impact, find_compliance_impact,
}
use analytics_hub.Analytics.Correlation.Process.{causes, detect}

-- Two lists of the entries of one map.
pub record SameEntries (l m : IdMap BufferedEvent) : Type 0 where
  pub same_entries : Perm l m
  pub same_lookup : (key : ℕ) → lookup_id key l ≡ lookup_id key m

module _ (f : FloatOps) where
  push-Permᴰ :
      (o : Option (Correlation f.F)) {l m : List (Correlation f.F)}
      → Permᴰ l m
      → Permᴰ (push f o l) (push f o m)
  push-Permᴰ none p = p
  push-Permᴰ (some c) p = Permᴰ.cons refl p

  push_swap :
      (o p : Option (Correlation f.F)) (l : List (Correlation f.F))
      → Permᴰ (push f o (push f p l)) (push f p (push f o l))
  push_swap none p l = Permᴰ.refl _
  push_swap (some c) none l = Permᴰ.refl _
  push_swap (some c) (some d) l = Permᴰ.swap refl refl

  for_entries-Permᴰ :
      (find : BufferedEvent → Option (Correlation f.F)) {l m : IdMap BufferedEvent}
      → Permᴰ l m
      → Permᴰ (for_entries f find l) (for_entries f find m)
  unfolding for_entries
  for_entries-Permᴰ find Permᴰ.nil = Permᴰ.nil
  for_entries-Permᴰ find (Permᴰ.cons {a} {b} {l₁ = l} {l₂ = m} e p) =
      subst (λ x. Permᴰ (for_entries f find (a ∷ l)) (for_entries f find (x ∷ m))) e
        (push-Permᴰ (find (a.1)) (for_entries-Permᴰ find p))
  for_entries-Permᴰ find (Permᴰ.swap {a} {b} {a' = c} {b' = d} {l} e g) =
      subst (λ x. Permᴰ (for_entries f find (a ∷ b ∷ l)) (for_entries f find (c ∷ x ∷ l))) e
        (subst (λ x. Permᴰ (for_entries f find (a ∷ b ∷ l)) (for_entries f find (x ∷ a ∷ l))) g
          (push_swap (find (a.1)) (find (b.1)) (for_entries f find l)))
  for_entries-Permᴰ find (Permᴰ.trans p q) =
      Permᴰ.trans (for_entries-Permᴰ find p) (for_entries-Permᴰ find q)

  for_entries-Perm :
      (find : BufferedEvent → Option (Correlation f.F)) {l m : IdMap BufferedEvent}
      → Perm l m
      → Perm (for_entries f find l) (for_entries f find m)
  for_entries-Perm find {l} {m} p =
      ∥∥₁_map {B = Permᴰ (for_entries f find l) (for_entries f find m)} p (for_entries-Permᴰ find)

  if-Perm :
      (b : Bool) {l m : List (Correlation f.F)}
      → Perm l m
      → Perm (if b then l else []) (if b then m else [])
  if-Perm true p = p
  if-Perm false p = Perm.refl []

  module _ {P : Type 0} (config : CorrelationConfig f.F) (draws : Draws)
      (event : AnalyticsEvent P) where
    causes_eq :
        (l m : IdMap BufferedEvent) (parent : Option ℕ)
        → ((key : ℕ) → lookup_id key l ≡ lookup_id key m)
        → causes f config draws event l parent ≡ causes f config draws event m parent
    unfolding detect_causal_correlation
    causes_eq l m none same = refl
    causes_eq l m (some parent_id) same =
        ap (λ o. push f (caused_by f config event draws parent_id o) []) (same parent_id)

    -- What is detected for an event does not depend on the order in which the map of the buffered
    -- events is iterated, but for the order of the correlations.
    pub detect_order_free :
        {l m : IdMap BufferedEvent}
        → SameEntries l m
        → Perm (detect f config draws event l) (detect f config draws event m)
    unfolding detect detect_temporal_correlations detect_cross_module_correlations
        find_performance_impact find_compliance_impact
    detect_order_free {l} {m} same =
        let p = same.same_entries in
        let parent = event.common.parent_event_id in
        subst
          (λ c. Perm (detect f config draws event l) (
            c
            ++ detect_temporal_correlations f config event draws m
            ++ detect_cross_module_correlations f config event draws m))
          (causes_eq l m parent same.same_lookup)
          (Perm.append
            (Perm.append_left (causes f config draws event l parent)
              (for_entries-Perm (temporal_with f config event draws) p))
            (Perm.append
              (if-Perm (is_cost event.common.event_type)
                (for_entries-Perm (performance_with f config event draws) p))
              (if-Perm (is_security event.common.event_type)
                (for_entries-Perm (compliance_with f config event draws) p))))
