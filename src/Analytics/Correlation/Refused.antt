-- ===== src/Analytics/Correlation/Refused.antt =====
-- Which events src/analytics/correlation_engine.rs cannot store correlations of.
use mathlib.Core.Option.{some_inj}
use analytics_hub.Prelude.{
  ℕ, ◌≡◌, refl, sym, ap, ◌∙◌, Bool, true, false, ◌&&◌, Option, none, some, List, [], ◌∷◌, ◌<◌, ◌⊎◌,
  inl, inr, ◌==◌, ◌>>=◌, All, length, ok, err, is_ok, Bool-cases, arith,
}
use analytics_hub.Prelude.IdMap.{lookup_id, IdMap}
use analytics_hub.Prelude.Float.{FloatOps}
use analytics_hub.Storage.{Table, has, unavailable, unique_violation}
use analytics_hub.Analytics.Correlation.{
  CorrelationConfig, BufferedEvent, Correlation, Tables, World, StoreError, refused,
  foreign_key_violation,
}
use analytics_hub.Analytics.Correlation.Detection.{
  in_time_window, calculate_temporal_strength, caused_by, temporal_with, performance_with,
  compliance_with, detect_causal_correlation,
}
use analytics_hub.Analytics.Correlation.Process.{
  has_row, store_correlation, and_then, store_all, detect_and_store, process_event,
}
use analytics_hub.Analytics.Correlation.Stored.{detected, processed, find_correlated_by_id-cases}
use analytics_hub.Analytics.Correlation.Run.{Request}
use analytics_hub.Analytics.Correlation.Symmetry.{guards-of_some}
use analytics_hub.Analytics.Correlation.Kinds.{guard-of_some, detect-All}

and_false : (b : Bool) → (b && false) ≡ false
and_false true = refl
and_false false = refl

All-Unit : {A : Type 0} (l : List A) → All (λ a. Unit) l
All-Unit [] = tt
All-Unit (a ∷ l) = (tt, All-Unit l)

module _ (f : FloatOps) {P : Type 0} (config : CorrelationConfig f.F) (r : Request P) where
  -- A correlation that names the event at one of its ends.
  abbrev pub Names : Correlation f.F → Type 0
  Names c =
      (c.source_event_id ≡ r.event.common.event_id) ⊎ (c.target_event_id ≡ r.event.common.event_id)

  causal-Names :
      (buffer : IdMap BufferedEvent) (parent_id : ℕ) (c : Correlation f.F)
      → detect_causal_correlation f config r.event r.draws buffer parent_id ≡ some c
      → Names c
  unfolding detect_causal_correlation
  causal-Names buffer parent_id c e = from_parent (lookup_id parent_id buffer) e
    where
      from_parent :
          (parent : Option BufferedEvent)
          → caused_by f config r.event r.draws parent_id parent ≡ some c
          → Names c
      from_parent none n = ground arith
      from_parent (some b) n =
          inr (sym (ap (λ d. d.target_event_id) (some_inj.0 (guard-of_some _ n).1)))

  source-Names :
      {d : Correlation f.F} (c : Correlation f.F)
      → d ≡ c
      → d.source_event_id ≡ r.event.common.event_id
      → Names c
  source-Names c e own = inl (sym (ap (λ d. d.source_event_id) e) ∙ own)

  temporal-Names :
      (other : BufferedEvent) (c : Correlation f.F)
      → temporal_with f config r.event r.draws other ≡ some c
      → Names c
  unfolding temporal_with
  temporal-Names other c e =
      let h =
        guards-of_some (other.event_id == r.event.common.event_id)
          (in_time_window f config r.event other)
          (f.le config.min_strength (calculate_temporal_strength f config r.event other)) e in
      source-Names c h.3 refl

  detected-Names : (s : World P f.F) → All Names (detected f config r s)
  unfolding performance_with compliance_with
  detected-Names s =
      detect-All f config r.draws r.event (λ entry. Unit) Names _ (All-Unit _)
        (λ p c e n. causal-Names _ p c n) (λ entry c u e. temporal-Names (entry.1) c e)
        (λ entry c t u e.
          source-Names c (some_inj.0 (guard-of_some _ (guard-of_some _ e).1).1) refl)
        (λ entry c t u e. source-Names c (some_inj.0 (guard-of_some _ e).1) refl)

  ends_unknown :
      (c : Correlation f.F) (events : Table P)
      → has r.event.common.event_id events ≡ false
      → Names c
      → (has c.source_event_id events && has c.target_event_id events) ≡ false
  ends_unknown c events absent (inl source) = rw (source, absent) refl
  ends_unknown c events absent (inr target) =
      rw (target, absent) (and_false (has c.source_event_id events))

  first_refused :
      (c : Correlation f.F) (fails : Bool) (t : Tables P f.F)
      → has r.event.common.event_id t.events ≡ false
      → Names c
      → (e : StoreError) × (store_correlation fails c t ≡ (err e, t))
  unfolding store_correlation
  first_refused c true t absent names = (refused unavailable, refl)
  first_refused c false t absent names =
      elim (Bool-cases (has_row c.correlation_id t.correlations)) [
        | inl e ↦ (refused unique_violation, rw e refl)
        | inr e ↦ (foreign_key_violation, rw (e, ends_unknown c t.events absent names) refl)
      ]

  none_stored :
      (cs : List (Correlation f.F)) (t : Tables P f.F)
      → has r.event.common.event_id t.events ≡ false
      → All Names cs
      → 0 < length cs
      → (e : StoreError) × (store_all r.faults.insert_fails 0 cs t ≡ (err e, t))
  unfolding store_all
  none_stored [] t absent names l = absurd (omega arith)
  none_stored (c ∷ cs) t absent names l =
      let h = first_refused c (r.faults.insert_fails 0) t absent names.0 in
      (h.0, ap (λ stored. and_then stored (store_all r.faults.insert_fails 1 cs)) h.1)

  -- An event that is not in the database yet, and for which something is detected, is refused: the
  -- call fails, and stores nothing.
  pub unstored_event_refused :
      (s : World P f.F)
      → has r.event.common.event_id s.tables.events ≡ false
      → 0 < length (detected f config r s)
      → (is_ok (processed f config r s).0 ≡ false) × ((processed f config r s).1.tables ≡ s.tables)
  unfolding process_event detect_and_store
  unstored_event_refused s absent found =
      let h = none_stored (detected f config r s) s.tables absent (detected-Names s) found in
      elim (find_correlated_by_id-cases f config r r.faults r.event.common.correlation_id) [
        | inl e ↦ rw e (
          ap (λ stored. is_ok (stored.0 >>= λ _. ok (detected f config r s))) h.1,
          ap (λ stored. stored.1) h.1,
        )
        | inr e ↦ rw e.1 (refl, refl)
      ]
