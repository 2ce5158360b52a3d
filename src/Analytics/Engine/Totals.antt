-- ===== src/Analytics/Engine/Totals.antt =====
-- How many values src/analytics/aggregation_engine.rs holds and has sent to the database.
use analytics_hub.Prelude.{
  ℕ, ◌+◌, ◌≡◌, refl, String, Option, none, some, Bool, true, false, List, [], ◌∷◌, ◌++◌, length,
  length-append, arith, Bool-cases, inl, inr,
}
use analytics_hub.Prelude.Int.{ℤ, leb_ℤ}
use analytics_hub.Prelude.Dict.{Dict}
use analytics_hub.Prelude.Float.{FloatOps}
use analytics_hub.Analytics.Window.{align_to_window}
use analytics_hub.Analytics.Statistics.{compute_statistics, default_measures}
use analytics_hub.Analytics.Statistics.Order.{length-sort}
use analytics_hub.Analytics.Engine.{
  AggregateKey, WindowedAggregates, MetricRow, AggregationEngine, key_eq, new_aggregates, add_value,
  find_entry, put_entry, or_new, row_of, flush_window, update_entry, window_end,
}

module _ {F : Type 0} where
  abbrev pub open_values : List (AggregateKey × WindowedAggregates F) → ℕ
  open_values [] = 0
  open_values ((k, a) ∷ l) = length a.values + open_values l

  abbrev pub sent_values : List (MetricRow F) → ℕ
  sent_values [] = 0
  sent_values (r ∷ rs) = r.measures.count + sent_values rs

  -- The values of the open aggregates and of all upserts.
  abbrev pub all_values : AggregationEngine F → ℕ
  all_values s = open_values s.aggregates + sent_values s.upserts

  abbrev held_under : Option (WindowedAggregates F) → ℕ
  held_under none = 0
  held_under (some a) = length a.values

  open_values-put_entry :
      (k : AggregateKey) (a : WindowedAggregates F) (l : List (AggregateKey × WindowedAggregates F))
      → open_values (put_entry k a l) + held_under (find_entry k l)
        ≡ open_values l + length a.values
  unfolding put_entry find_entry
  open_values-put_entry k a [] = omega arith
  open_values-put_entry k a ((j, b) ∷ l) =
      let rest = open_values-put_entry k a l in
      elim (Bool-cases (key_eq j k)) [
        | inl e ↦ rw e (omega arith)
        | inr e ↦ rw e (omega (arith, rest))
      ]

  sent_values-append :
      (rs : List (MetricRow F)) (r : MetricRow F)
      → sent_values (rs ++ r ∷ []) ≡ sent_values rs + r.measures.count
  sent_values-append [] r = omega arith
  sent_values-append (q ∷ rs) r = omega (arith, sent_values-append rs r)

  length-or_new :
      (start : ℤ) (o : Option (WindowedAggregates F))
      → length (or_new start o).values ≡ held_under o
  length-or_new start none = refl
  length-or_new start (some a) = refl

module _ (f : FloatOps) where
  compute_statistics-count : (xs : List f.F) → (compute_statistics f xs).count ≡ length xs
  unfolding compute_statistics default_measures
  compute_statistics-count [] = refl
  compute_statistics-count (x ∷ xs) = length-sort f (x ∷ xs)

  -- One call: whether the database fails, for which key and value, at what time, with which tags.
  pub record Update : Type 0 where
    pub fails : Bool
    pub key : AggregateKey
    pub value : f.F
    pub timestamp : ℤ
    pub tags : Dict String

  abbrev pub update : Update → AggregationEngine f.F → AggregationEngine f.F
  update u s = (update_entry f u.fails u.key u.value u.timestamp u.tags s).1

  abbrev pub updates : List Update → AggregationEngine f.F → AggregationEngine f.F
  updates [] s = s
  updates (u ∷ us) s = updates us (update u s)

  all_values-flush :
      (fails : Bool) (k : AggregateKey) (start : ℤ) (tags : Dict String)
      (a : WindowedAggregates f.F) (s : AggregationEngine f.F)
      → all_values (flush_window f fails k start tags a s).1
          + held_under (find_entry k s.aggregates)
        ≡ all_values s + length a.values
  unfolding flush_window
  all_values-flush true k start tags a s = omega (arith, open_values-put_entry k a s.aggregates)
  all_values-flush false k start tags a s = omega (
    arith,
    open_values-put_entry k (new_aggregates start) s.aggregates,
    sent_values-append s.upserts (row_of f k tags a),
    compute_statistics-count a.values,
  )

  all_values-update :
      (u : Update) (s : AggregationEngine f.F) → all_values (update u s) ≡ all_values s + 1
  unfolding update_entry
  all_values-update u s =
      let start = align_to_window u.timestamp u.key.window in
      let old = or_new start (find_entry u.key s.aggregates) in
      let a = add_value u.value old in
      let grown = length-append old.values (u.value ∷ []) in
      let same = length-or_new start (find_entry u.key s.aggregates) in
      elim (Bool-cases (leb_ℤ (window_end a) u.timestamp)) [
        | inl l ↦
            rw (update, l)
              (omega (arith, grown, same, all_values-flush u.fails u.key start u.tags a s))
        | inr l ↦
            rw (update, l) (omega (arith, grown, same, open_values-put_entry u.key a s.aggregates))
      ]

  -- Each update is accounted for once: after any calls, those that failed at the database included,
  -- the values in the open aggregates and the counts of all upserts sent, together, have grown by
  -- one for each call. It says nothing of the rows that stay: a later upsert replaces the row of
  -- its key.
  pub updates_accounted :
      (us : List Update) (s : AggregationEngine f.F)
      → all_values (updates us s) ≡ all_values s + length us
  updates_accounted [] s = omega arith
  updates_accounted (u ∷ us) s =
      omega (arith, updates_accounted us (update u s), all_values-update u s)
