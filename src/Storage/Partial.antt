-- ===== src/Storage/Partial.antt =====
-- What a batch written by `insert_events_batch` of src/database/mod.rs leaves in the table.
use mathlib.Core.List.{append_assoc, append-nil}
use analytics_hub.Prelude.{
  take, ℕ, zero, suc, ◌+◌, ◌≤◌, ◌<◌, ◌≡◌, refl, Bool, true, false, List, [], ◌∷◌, ◌++◌, ok, err,
  length, arith, Bool-cases, inl, inr, ltb,
}
use analytics_hub.Schema.Event.{AnalyticsEvent}
use analytics_hub.Storage.Batch.{rows_cases}
use analytics_hub.Storage.{
  DbError, unavailable, Faults, Table, event_id, has, insert_row, insert_rows, insert_event,
  insert_each, insert_events_batch,
}

module _ {P : Type 0} where
  -- The keys of the events are in neither the table nor the events before them.
  abbrev pub IsFresh : List (AnalyticsEvent P) → Table P → Type 0
  IsFresh [] t = Unit
  IsFresh (e ∷ es) t = (has (event_id e) t ≡ false) × IsFresh es (t ++ e ∷ [])

  insert_row_fresh :
      (e : AnalyticsEvent P) (t : Table P)
      → has (event_id e) t ≡ false
      → insert_row e t ≡ ok (t ++ e ∷ [])
  unfolding insert_row
  insert_row_fresh e t h = rw h

  insert_event_fresh :
      (e : AnalyticsEvent P) (t : Table P)
      → has (event_id e) t ≡ false
      → insert_event false e t ≡ (ok (event_id e), t ++ e ∷ [])
  unfolding insert_event
  insert_event_fresh e t h = rw (insert_row_fresh e t h)

  insert_rows_fresh :
      (es : List (AnalyticsEvent P)) (t : Table P) → IsFresh es t → insert_rows es t ≡ ok (t ++ es)
  unfolding insert_rows
  insert_rows_fresh [] t h = rw append-nil
  insert_rows_fresh (e ∷ es) t h =
      rw (insert_row_fresh e t h.0, insert_rows_fresh es (t ++ e ∷ []) h.1, append_assoc)

  insert_event_fails :
      (e : AnalyticsEvent P) (t : Table P) → insert_event true e t ≡ (err unavailable, t)
  unfolding insert_event
  insert_event_fails e t = refl

  -- The loop up to the first statement that fails, the one at position `i + k`.
  insert_each_until :
      (fails : ℕ → Bool) (k i : ℕ) (es : List (AnalyticsEvent P)) (t : Table P)
      → IsFresh es t
      → k < length es
      → ((j : ℕ) → j < i + k → fails j ≡ false)
      → fails (i + k) ≡ true
      → insert_each fails i es t ≡ (err unavailable, t ++ take k es)
  unfolding insert_each
  insert_each_until fails k i [] t h l before at = absurd (omega arith)
  insert_each_until fails zero i (e ∷ es) t h l before at =
      let z : i + 0 ≡ i = omega arith in
      let here : fails i ≡ true = rw z at at in rw (here, insert_event_fails e t, append-nil)
  insert_each_until fails (suc k) i (e ∷ es) t h l before at =
      let z : i + suc k ≡ suc i + k = omega arith in
      let later : fails (suc i + k) ≡ true = rw z at at in
      rw (
        before i (omega arith),
        insert_event_fresh e t h.0,
        insert_each_until fails k (suc i) es (t ++ e ∷ []) h.1 (omega arith)
            (λ j b. before j (omega arith)) later,
        append_assoc,
      )

  insert_each_all :
      (fails : ℕ → Bool) (i : ℕ) (es : List (AnalyticsEvent P)) (t : Table P)
      → IsFresh es t
      → ((j : ℕ) → fails j ≡ false)
      → insert_each fails i es t ≡ (ok (i + length es), t ++ es)
  unfolding insert_each
  insert_each_all fails i [] t h never = let z : i + 0 ≡ i = omega arith in rw (z, append-nil)
  insert_each_all fails i (e ∷ es) t h never =
      let z : suc i + length es ≡ i + suc (length es) = omega arith in
      rw (
        never i,
        insert_event_fresh e t h.0,
        insert_each_all fails (suc i) es (t ++ e ∷ []) h.1 never,
        append_assoc,
        z,
      )

  -- Events with new keys are all inserted, in order, and their number is returned, by the bulk
  -- statement of a large batch and by the loop of a small one alike, where nothing fails.
  pub insert_events_batch_ok :
      (f : Faults) (es : List (AnalyticsEvent P)) (t : Table P)
      → IsFresh es t
      → f.begin_fails ≡ false
      → ((j : ℕ) → f.statement_fails j ≡ false)
      → f.commit_fails ≡ false
      → insert_events_batch f es t ≡ (ok (length es), t ++ es)
  unfolding insert_events_batch
  insert_events_batch_ok f [] t h b n c = rw append-nil
  insert_events_batch_ok f (e ∷ es) t h b n c = elim (Bool-cases (ltb 100 (length (e ∷ es)))) [
    | inl large ↦ rw (b, large, n 0, insert_rows_fresh (e ∷ es) t h, c)
    | inr small ↦
        let z : 0 + length (e ∷ es) ≡ length (e ∷ es) = omega arith in
        rw (b, small, insert_each_all f.statement_fails 0 (e ∷ es) t h n, c, z)
  ]

  -- A batch of at most a hundred events is not written all or nothing: where the statement at
  -- position `k` is the first to fail, the call fails and the `k` events before it stay in the
  -- table. The keys are new, and the transaction begins.
  pub small_batch_partial :
      (f : Faults) (es : List (AnalyticsEvent P)) (t : Table P) (k : ℕ)
      → IsFresh es t
      → length es ≤ 100
      → k < length es
      → f.begin_fails ≡ false
      → ((j : ℕ) → j < k → f.statement_fails j ≡ false)
      → f.statement_fails k ≡ true
      → insert_events_batch f es t ≡ (err unavailable, t ++ take k es)
  unfolding insert_events_batch
  small_batch_partial f [] t k h l b begun before at = absurd (omega arith)
  small_batch_partial f (e ∷ es) t k h l b begun before at =
      let small : ltb 100 (length (e ∷ es)) ≡ false = ground arith in
      let z : 0 + k ≡ k = omega arith in
      rw (
        begun,
        small,
        insert_each_until f.statement_fails k 0 (e ∷ es) t h b (λ j i. before j (omega arith))
            (rw z at),
      )

  -- A batch of more than a hundred events is written all or nothing: where the call fails, the
  -- table is as it was.
  pub large_batch_atomic :
      (f : Faults) (es : List (AnalyticsEvent P)) (t : Table P) {x : DbError}
      → 100 < length es
      → (insert_events_batch f es t).0 ≡ err x
      → (insert_events_batch f es t).1 ≡ t
  unfolding insert_events_batch
  large_batch_atomic f [] t l h = absurd (omega arith)
  large_batch_atomic f (e ∷ es) t l h =
      let large : ltb 100 (length (e ∷ es)) ≡ true = ground arith in
      elim (rows_cases (insert_rows (e ∷ es) t)) [
        | inl (u, r) ↦ ground (arith, r, large)
        | inr (y, r) ↦ ground (arith, r, large)
      ]
