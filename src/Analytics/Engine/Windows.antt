-- ===== src/Analytics/Engine/Windows.antt =====
-- When src/analytics/aggregation_engine.rs flushes a window, and what reaches it at all.
use mathlib.Core.List.{append_assoc, append-nil}
use text.Mathlib.TextPositions.{eq_refl}
use analytics_hub.Prelude.{
  ℕ, ◌≡◌, refl, sym, ◌∙◌, ◌⊎◌, String, none, some, Bool, true, false, List, [], ◌∷◌, ◌++◌, ok, map,
  arith, inl, inr,
}
use analytics_hub.Prelude.Int.{ℤ, leb_ℤ, add_ℕ}
use analytics_hub.Prelude.Dict.{Dict}
use analytics_hub.Prelude.Float.{FloatOps}
use analytics_hub.Schema.Event.{AnalyticsEvent}
use analytics_hub.Schema.Payload.{EventPayload, telemetry, security, cost, governance, custom}
use analytics_hub.Analytics.Window.{TimeWindow, align_to_window}
use analytics_hub.Analytics.Engine.{
  AggregateKey, WindowedAggregates, MetricRow, AggregationEngine, key_eq, new_aggregates, add_value,
  find_entry, put_entry, or_new, with_entry, row_of, update_entry, extract_metrics, process_event,
}

key_eq_refl : (k : AggregateKey) → key_eq k k ≡ true
unfolding key_eq
key_eq_refl k = ground (arith, eq_refl k.metric_name)

module _ {F : Type 0} where
  find_entry-put_entry :
      (k : AggregateKey) (a : WindowedAggregates F) (l : List (AggregateKey × WindowedAggregates F))
      → find_entry k (put_entry k a l) ≡ some a
  unfolding put_entry find_entry
  find_entry-put_entry k a [] = rw (key_eq_refl k) refl
  find_entry-put_entry k a ((j, b) ∷ l) = ground (arith, find_entry-put_entry k a l)

  extract_metrics_empty : (payload : EventPayload F) → extract_metrics payload ≡ []
  unfolding extract_metrics
  extract_metrics_empty (telemetry inner) = refl
  extract_metrics_empty (security inner) = refl
  extract_metrics_empty (cost inner) = refl
  extract_metrics_empty (governance inner) = refl
  extract_metrics_empty (custom inner) = refl

module _ (f : FloatOps) where
  -- No event changes any aggregate or writes any row, whatever numbers its payload holds,
  -- and none fails.
  pub payloads_not_aggregated :
      (hash_tags : Dict String → ℕ) (fails : String → TimeWindow → Bool)
      (event : AnalyticsEvent (EventPayload f.F)) (s : AggregationEngine f.F)
      → process_event f hash_tags fails event s ≡ (ok tt, s)
  unfolding process_event
  payloads_not_aggregated hash_tags fails event s = rw (extract_metrics_empty event.payload) refl

  module _ (k : AggregateKey) (tags : Dict String) (start : ℤ) where
    -- The key has no value waiting, and its aggregate, if there is one, begins at `start`.
    abbrev pub IsIdle : AggregationEngine f.F → Type 0
    IsIdle s =
        (find_entry k s.aggregates ≡ none)
        ⊎ (find_entry k s.aggregates ≡ some (new_aggregates start))

    -- Each point lies in the window that begins at `start`, a minute or more after its beginning.
    abbrev pub AllLate : List (f.F × ℤ) → Type 0
    AllLate [] = Unit
    AllLate ((v, t) ∷ points) =
        (align_to_window t k.window ≡ start)
        × (leb_ℤ (add_ℕ start 60000000000) t ≡ true)
        × AllLate points

    -- The updates of the key with the points, in their order, where the database takes the rows.
    abbrev pub update_all : List (f.F × ℤ) → AggregationEngine f.F → AggregationEngine f.F
    update_all [] s = s
    update_all ((v, t) ∷ points) s = update_all points (update_entry f false k v t tags s).1

    -- The row of a window that has seen one value.
    abbrev pub single_row : f.F × ℤ → MetricRow f.F
    single_row (v, t) = row_of f k tags (add_value v (new_aggregates start))

    or_new_idle :
        (s : AggregationEngine f.F)
        → IsIdle s
        → or_new start (find_entry k s.aggregates) ≡ new_aggregates start
    or_new_idle s (inl e) = rw e refl
    or_new_idle s (inr e) = rw e refl

    update_late :
        (v : f.F) (t : ℤ) (s : AggregationEngine f.F)
        → IsIdle s
        → align_to_window t k.window ≡ start
        → leb_ℤ (add_ℕ start 60000000000) t ≡ true
        → (update_entry f false k v t tags s).1 ≡ record (with_entry k (new_aggregates start) s) {
          upserts = s.upserts ++ single_row (v, t) ∷ [];
        }
    unfolding update_entry
    update_late v t s idle aligned late = rw (aligned, or_new_idle s idle, late) refl

    -- A window that is longer than a minute is not aggregated after its first minute: each value
    -- that comes later in the window is flushed at once, alone, as a row of its own under the same
    -- key. No value waits for the key at the beginning, and the database takes the rows.
    pub late_values_alone :
        (points : List (f.F × ℤ)) (s : AggregationEngine f.F)
        → IsIdle s
        → AllLate points
        → (update_all points s).upserts ≡ s.upserts ++ map single_row points
    late_values_alone [] s idle late = sym (append-nil s.upserts)
    late_values_alone ((v, t) ∷ points) s idle late =
        let next = record (with_entry k (new_aggregates start) s) {
          upserts = s.upserts ++ single_row (v, t) ∷ [];
        } in
        let fresh = inr (find_entry-put_entry k (new_aggregates start) s.aggregates) in
        rw (update_all, update_late v t s idle late.0 late.1)
          (late_values_alone points next fresh late.2
            ∙ append_assoc s.upserts (single_row (v, t) ∷ []) (map single_row points))
