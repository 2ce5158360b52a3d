-- ===== src/Storage.antt =====
-- The two writers of events: src/pipeline/storage.rs and src/database/mod.rs. A table is the list of
-- its rows, oldest first; the SQL of each statement is in the source. Which statements fail for
-- reasons outside the program (the network, the server, a value that does not serialise) is an
-- argument, and a transaction that is dropped before its commit leaves no trace.
pub mod Batch
pub mod Partial
use analytics_hub.Prelude.{
  ℕ, zero, suc, ◌+◌, Bool, true, false, ◌||◌, Option, none, some, List, [], ◌∷◌, ◌++◌, Outcome, ok,
  err, if◌then◌else◌, ltb, length, ◌==◌, ◌>>=◌,
}
use analytics_hub.Schema.Event.{AnalyticsEvent}

pub data DbError : Type 0 where
  unavailable unique_violation : DbError

-- Which of the statements of a call fail, those of a loop by their position.
pub record Faults : Type 0 where
  pub begin_fails : Bool
  pub statement_fails : ℕ → Bool
  pub commit_fails : Bool

abbrev pub Table : Type 0 → Type 0
Table P = List (AnalyticsEvent P)

module _ {P : Type 0} where
  abbrev pub event_id : AnalyticsEvent P → ℕ
  event_id e = e.common.event_id

  -- A row by its primary key.
  unfoldable pub find : ℕ → Table P → Option (AnalyticsEvent P)
  find i [] = none
  find i (e ∷ t) = if event_id e == i then some e else find i t

  abbrev pub is_some_row : Option (AnalyticsEvent P) → Bool
  is_some_row none = false
  is_some_row (some _) = true

  abbrev pub has : ℕ → Table P → Bool
  has i t = is_some_row (find i t)

  -- `INSERT … ON CONFLICT (event_id) DO NOTHING`
  unfoldable pub insert_or_nothing : AnalyticsEvent P → Table P → Table P
  insert_or_nothing e t = if has (event_id e) t then t else t ++ e ∷ []

  -- `INSERT …` under the primary key.
  unfoldable pub insert_row : AnalyticsEvent P → Table P → Outcome (Table P) DbError
  insert_row e t = if has (event_id e) t then err unique_violation else ok (t ++ e ∷ [])

  -- `StorageManager::store_event`
  unfoldable pub store_event :
      Bool → AnalyticsEvent P → Table P → Outcome (Unit {0}) DbError × Table P
  store_event fails e t = if fails then (err unavailable, t) else (ok tt, insert_or_nothing e t)

  -- The loop of `StorageManager::store_batch`, on the transaction's view of the table.
  unfoldable pub store_rows :
      (ℕ → Bool) → ℕ → List (AnalyticsEvent P) → Table P → Outcome (Table P) DbError
  store_rows fails i [] t = ok t
  store_rows fails i (e ∷ es) t =
      let rest = store_rows fails (suc i) es (insert_or_nothing e t) in
      if fails i then err unavailable else rest

  -- The end of a transaction on the table `t`.
  abbrev pub commit :
      {A : Type 0} → Bool → Table P → A → Outcome (Table P) DbError → Outcome A DbError × Table P
  commit fails t a (err x) = (err x, t)
  commit fails t a (ok t') = if fails then (err unavailable, t) else (ok a, t')

  -- `StorageManager::store_batch`
  unfoldable pub store_batch :
      Faults → List (AnalyticsEvent P) → Table P → Outcome (Unit {0}) DbError × Table P
  unfolding store_rows
  store_batch f es t =
      if f.begin_fails
      then (err unavailable, t)
      else commit f.commit_fails t tt (store_rows f.statement_fails 0 es t)

  abbrev pub inserted_row :
      AnalyticsEvent P → Table P → Outcome (Table P) DbError → Outcome ℕ DbError × Table P
  inserted_row e t (ok t') = (ok (event_id e), t')
  inserted_row e t (err x) = (err x, t)

  -- `Database::insert_event`, outside any transaction.
  unfoldable pub insert_event : Bool → AnalyticsEvent P → Table P → Outcome ℕ DbError × Table P
  insert_event fails e t = if fails then (err unavailable, t) else inserted_row e t (insert_row e t)

  -- The rows of one bulk `INSERT`: all of them, or the statement fails.
  unfoldable pub insert_rows : List (AnalyticsEvent P) → Table P → Outcome (Table P) DbError
  insert_rows [] t = ok t
  insert_rows (e ∷ es) t = insert_row e t >>= insert_rows es

  -- `self.insert_event(event).await?` and what follows it.
  abbrev pub after_insert :
      Outcome ℕ DbError × Table P
      → (Table P → Outcome ℕ DbError × Table P)
      → Outcome ℕ DbError × Table P
  after_insert (ok _, t) rest = rest t
  after_insert (err x, t) rest = (err x, t)

  -- The loop over the smaller batches: `inserted` counts the calls of `insert_event`.
  unfoldable pub insert_each :
      (ℕ → Bool) → ℕ → List (AnalyticsEvent P) → Table P → Outcome ℕ DbError × Table P
  insert_each fails inserted [] t = (ok inserted, t)
  insert_each fails inserted (e ∷ es) t =
      after_insert (insert_event (fails inserted) e t) (insert_each fails (suc inserted) es)

  -- `tx.commit()` after the loop: the transaction is empty, and what the loop inserted stays.
  abbrev pub commit_empty : Bool → Outcome ℕ DbError × Table P → Outcome ℕ DbError × Table P
  commit_empty fails (ok n, t) = if fails then (err unavailable, t) else (ok n, t)
  commit_empty fails (err x, t) = (err x, t)

  bulk : Faults → List (AnalyticsEvent P) → Table P → Outcome ℕ DbError × Table P
  bulk f es t =
      if f.statement_fails 0
      then (err unavailable, t)
      else commit f.commit_fails t (length es) (insert_rows es t)

  batch_of : Faults → List (AnalyticsEvent P) → Table P → Outcome ℕ DbError × Table P
  unfolding bulk
  batch_of f es t =
      if ltb 100 (length es)
      then bulk f es t
      else commit_empty f.commit_fails (insert_each f.statement_fails 0 es t)

  -- `Database::insert_events_batch`
  unfoldable pub insert_events_batch :
      Faults → List (AnalyticsEvent P) → Table P → Outcome ℕ DbError × Table P
  unfolding batch_of
  insert_events_batch f [] t = (ok 0, t)
  insert_events_batch f (e ∷ es) t =
      if f.begin_fails then (err unavailable, t) else batch_of f (e ∷ es) t
