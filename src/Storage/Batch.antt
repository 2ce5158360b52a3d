-- ===== src/Storage/Batch.antt =====
-- What a batch written by src/pipeline/storage.rs leaves in the table.
use analytics_hub.Prelude.{
  ℕ, suc, ◌≡◌, refl, Bool, true, false, Option, none, some, List, [], ◌∷◌, ◌++◌, Outcome, ok, err,
  if◌then◌else◌, ◌==◌, arith, Bool-cases, inl, inr, sym, ◌⊎◌, ◌∙◌,
}
use mathlib.Core.List.{append_assoc, append-nil}
use analytics_hub.Schema.Event.{AnalyticsEvent}
use analytics_hub.Storage.{
  DbError, Faults, Table, event_id, find, has, insert_or_nothing, store_rows, store_batch,
  is_some_row,
}

ended : (r : Outcome (Unit {0}) DbError) → (r ≡ ok tt) ⊎ ((x : DbError) × (r ≡ err x))
ended (ok tt') = inl refl
ended (err x) = inr (x, refl)

module _ {P : Type 0} where
  pub find-append :
      (i : ℕ) (t u : Table P) → find i (t ++ u) ≡ (if has i t then find i t else find i u)
  unfolding find
  find-append i [] u = refl
  find-append i (e ∷ t) u = ground (arith, find-append i t u)

  find-none : (o : Option (AnalyticsEvent P)) → is_some_row o ≡ false → o ≡ none
  find-none none h = refl
  find-none (some e) h = cc

  if_same : (i : ℕ) (t : Table P) → find i t ≡ (if has i t then find i t else none)
  if_same i t = elim (Bool-cases (has i t)) [
    | inl h ↦ rw h
    | inr h ↦ rw (h, find-none (find i t) h)
  ]

  kept :
      (i : ℕ) (e : AnalyticsEvent P) (t : Table P)
      → has (event_id e) t ≡ true
      → find i t ≡ (if has i t then find i t else find i (e ∷ []))
  unfolding find
  kept i e t h = elim (Bool-cases (event_id e == i)) [
    | inl same ↦
        let here : event_id e ≡ i = ground arith in
        let held : has i t ≡ true = rw here at h in rw held
    | inr other ↦ rw other (if_same i t)
  ]

  find-insert_or_nothing :
      (i : ℕ) (e : AnalyticsEvent P) (t : Table P)
      → find i (insert_or_nothing e t) ≡ find i (t ++ e ∷ [])
  unfolding insert_or_nothing
  find-insert_or_nothing i e t = elim (Bool-cases (has (event_id e) t)) [
    | inl h ↦ rw h (kept i e t h ∙ sym (find-append i t (e ∷ [])))
    | inr h ↦ rw h
  ]

  -- The table after the rows of a batch, written without the code.
  abbrev pub stored : List (AnalyticsEvent P) → Table P → Table P
  stored [] t = t
  stored (e ∷ es) t = stored es (insert_or_nothing e t)

  store_rows_lem :
      (fails : ℕ → Bool) (i : ℕ) (es : List (AnalyticsEvent P)) (t u : Table P)
      → store_rows fails i es t ≡ ok u
      → u ≡ stored es t
  unfolding store_rows
  store_rows_lem fails i [] t u h = ground arith
  store_rows_lem fails i (e ∷ es) t u h =
      ground (arith, store_rows_lem fails (suc i) es (insert_or_nothing e t) u)

  find-stored :
      (i : ℕ) (es : List (AnalyticsEvent P)) (t : Table P) → find i (stored es t) ≡ find i (t ++ es)
  find-stored i [] t = rw append-nil
  find-stored i (e ∷ es) t =
      find-stored i es (insert_or_nothing e t)
      ∙ find-append i (insert_or_nothing e t) es
      ∙ rw (find-insert_or_nothing i e t, ← find-append i (t ++ e ∷ []) es, append_assoc) refl

  pub rows_cases :
      (r : Outcome (Table P) DbError) → ((u : Table P) × (r ≡ ok u)) ⊎ ((x : DbError) × (r ≡ err x))
  rows_cases (ok u) = inl (u, refl)
  rows_cases (err x) = inr (x, refl)

  store_batch_ok :
      (f : Faults) (es : List (AnalyticsEvent P)) (t : Table P)
      → (store_batch f es t).0 ≡ ok tt
      → store_batch f es t ≡ (ok tt, stored es t)
  unfolding store_batch
  store_batch_ok f es t h = elim (rows_cases (store_rows f.statement_fails 0 es t)) [
    | inl (u, e) ↦ ground (arith, e, store_rows_lem f.statement_fails 0 es t u e)
    | inr (x, e) ↦ ground (arith, e)
  ]

  -- Storing a batch is all or nothing: where it fails, at the beginning, at any statement or at the
  -- commit, the table is as it was.
  pub store_batch_atomic :
      (f : Faults) (es : List (AnalyticsEvent P)) (t : Table P) {x : DbError}
      → (store_batch f es t).0 ≡ err x
      → (store_batch f es t).1 ≡ t
  unfolding store_batch
  store_batch_atomic f es t h = elim (rows_cases (store_rows f.statement_fails 0 es t)) [
    | inl (u, e) ↦ ground (arith, e)
    | inr (x, e) ↦ ground (arith, e)
  ]

  -- A stored batch is found by key: under each key the table holds the row that it held before, and
  -- else the first event of the batch with that key.
  pub find-store_batch :
      (f : Faults) (es : List (AnalyticsEvent P)) (t : Table P) (i : ℕ)
      → (store_batch f es t).0 ≡ ok tt
      → find i (store_batch f es t).1 ≡ (if has i t then find i t else find i es)
  find-store_batch f es t i h =
      rw (store_batch_ok f es t h, find-stored i es t) (find-append i t es)

  AllHeld : List (AnalyticsEvent P) → Table P → Type 0
  AllHeld [] t = Unit
  AllHeld (e ∷ es) t = (has (event_id e) t ≡ true) × AllHeld es t

  has-insert_or_nothing :
      (e : AnalyticsEvent P) (t : Table P) → has (event_id e) (insert_or_nothing e t) ≡ true
  unfolding find
  has-insert_or_nothing e t =
      rw (find-insert_or_nothing (event_id e) e t, find-append (event_id e) t (e ∷ []))
        (ground arith)

  has-append : (i : ℕ) (t u : Table P) → has i t ≡ true → has i (t ++ u) ≡ true
  has-append i t u h = rw (find-append i t u, h) h

  stored-AllHeld : (es : List (AnalyticsEvent P)) (t : Table P) → AllHeld es (stored es t)
  unfolding AllHeld
  stored-AllHeld [] t = tt
  stored-AllHeld (e ∷ es) t = (
    rw (find-stored (event_id e) es (insert_or_nothing e t))
        (has-append (event_id e) (insert_or_nothing e t) es (has-insert_or_nothing e t)),
    stored-AllHeld es (insert_or_nothing e t),
  )

  stored_of_AllHeld : (es : List (AnalyticsEvent P)) (t : Table P) → AllHeld es t → stored es t ≡ t
  unfolding AllHeld insert_or_nothing
  stored_of_AllHeld [] t h = refl
  stored_of_AllHeld (e ∷ es) t h = rw h.0 (stored_of_AllHeld es t h.1)

  held_again :
      (g : Faults) (es : List (AnalyticsEvent P)) (u : Table P)
      → AllHeld es u
      → (store_batch g es u).1 ≡ u
  held_again g es u held = elim (ended (store_batch g es u).0) [
    | inl e ↦ rw (store_batch_ok g es u e) (stored_of_AllHeld es u held)
    | inr (x, e) ↦ store_batch_atomic g es u e
  ]

  -- A batch that was stored and is stored again changes nothing, whether the second attempt
  -- succeeds or fails.
  pub store_batch_twice :
      (f g : Faults) (es : List (AnalyticsEvent P)) (t : Table P)
      → (store_batch f es t).0 ≡ ok tt
      → (store_batch g es (store_batch f es t).1).1 ≡ (store_batch f es t).1
  store_batch_twice f g es t h =
      rw (store_batch_ok f es t h) (held_again g es (stored es t) (stored-AllHeld es t))
