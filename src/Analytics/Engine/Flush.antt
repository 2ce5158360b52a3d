-- ===== src/Analytics/Engine/Flush.antt =====
-- What `flush_all` of src/analytics/aggregation_engine.rs writes.
use mathlib.Core.List.{append_assoc, append-nil}
use analytics_hub.Prelude.{
  ℕ, suc, ◌+◌, ◌≡◌, sym, ap, ◌∙◌, Bool, false, List, [], ◌∷◌, ◌++◌, Outcome, ok, length, arith,
  Bool-cases, inl, inr, if◌then◌else◌,
}
use analytics_hub.Prelude.Float.{FloatOps}
use analytics_hub.Storage.{DbError}
use analytics_hub.Analytics.Engine.{
  AggregateKey, WindowedAggregates, MetricRow, AggregationEngine, row_of, is_empty, flush_entries,
  flush_all,
}

module _ (f : FloatOps) where
  -- The rows of the aggregates that hold a value, without their tags.
  abbrev pub pending_rows : List (AggregateKey × WindowedAggregates f.F) → List (MetricRow f.F)
  pending_rows [] = []
  pending_rows ((k, a) ∷ l) =
      let rest = pending_rows l in if is_empty f a.values then rest else row_of f k [] a ∷ rest

  abbrev flushed_with :
      List (MetricRow f.F) → ℕ → AggregationEngine f.F → Outcome ℕ DbError × AggregationEngine f.F
  flushed_with rows flushed s =
      (ok (flushed + length rows), record s { upserts = s.upserts ++ rows })

  flushed_with-cons :
      (r : MetricRow f.F) (rows : List (MetricRow f.F)) (n : ℕ) (s : AggregationEngine f.F)
      → flushed_with rows (suc n) (record s { upserts = s.upserts ++ r ∷ [] })
        ≡ flushed_with (r ∷ rows) n s
  flushed_with-cons r rows n s =
      let sum : suc n + length rows ≡ n + length (r ∷ rows) = omega arith in
      ap (λ k. (ok k, record s { upserts = (s.upserts ++ r ∷ []) ++ rows })) sum
      ∙ ap (λ l. (ok (n + length (r ∷ rows)), record s { upserts = l }))
          (append_assoc s.upserts (r ∷ []) rows)

  flush_entries_lem :
      (fails : AggregateKey → Bool) (l : List (AggregateKey × WindowedAggregates f.F)) (n : ℕ)
      (s : AggregationEngine f.F)
      → ((k : AggregateKey) → fails k ≡ false)
      → flush_entries f fails l n s ≡ flushed_with (pending_rows l) n s
  unfolding flush_entries
  flush_entries_lem fails [] n s h =
      let none_added : n ≡ n + length (pending_rows []) = omega arith in
      ap (λ l. (ok n, record s { upserts = l })) (sym (append-nil s.upserts))
      ∙ ap (λ k. (ok k, record s { upserts = s.upserts ++ [] })) none_added
  flush_entries_lem fails ((k, a) ∷ l) n s h = elim (Bool-cases (is_empty f a.values)) [
    | inl e ↦ rw e (flush_entries_lem fails l n s h)
    | inr e ↦
        rw (e, h k)
          (flush_entries_lem fails l (suc n)
              (record s { upserts = s.upserts ++ row_of f k [] a ∷ [] }) h
            ∙ flushed_with-cons (row_of f k [] a) (pending_rows l) n s)
  ]

  -- Where the database takes them, a forced flush writes one row for each aggregate that holds a
  -- value, in their order and without tags, returns their number, and leaves the aggregates as they
  -- are.
  pub flush_all_lem :
      (fails : AggregateKey → Bool) (s : AggregationEngine f.F)
      → ((k : AggregateKey) → fails k ≡ false)
      → flush_all f fails s ≡ (
        ok (length (pending_rows s.aggregates)),
        record s { upserts = s.upserts ++ pending_rows s.aggregates },
      )
  unfolding flush_all
  flush_all_lem fails s h =
      let rows = pending_rows s.aggregates in
      let from_zero : 0 + length rows ≡ length rows = omega arith in
      flush_entries_lem fails s.aggregates 0 s h
      ∙ ap (λ n. (ok n, record s { upserts = s.upserts ++ rows })) from_zero
