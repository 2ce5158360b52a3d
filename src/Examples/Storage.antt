-- ===== src/Examples/Storage.antt =====
-- The writers of events at concrete inputs.
use analytics_hub.Prelude.{
  ℕ, zero, suc, ◌<◌, ◌≡◌, refl, String, false, List, [], ◌∷◌, ◌++◌, ok, err, if◌then◌else◌, arith,
}
use analytics_hub.Schema.Event.{AnalyticsEvent}
use analytics_hub.Storage.{unavailable, Table, find, has, store_batch, insert_events_batch}
use analytics_hub.Storage.Batch.{find-store_batch}
use analytics_hub.Storage.Partial.{IsFresh, small_batch_partial}
use analytics_hub.Examples.Data.{event, no_faults, second_fails}

abbrev batch : List (AnalyticsEvent String)
batch = event 2 ∷ event 1 ∷ event 2 ∷ []

abbrev table : Table String
table = event 1 ∷ []

store_succeeds : (store_batch no_faults batch table).0 ≡ ok tt
unfolding store_batch
store_succeeds = refl

find-store_batch_example :
    find 2 (store_batch no_faults batch table).1
    ≡ (if has 2 table then find 2 table else find 2 batch)
find-store_batch_example = find-store_batch no_faults batch table 2 store_succeeds

abbrev new_batch : List (AnalyticsEvent String)
new_batch = event 2 ∷ event 3 ∷ event 4 ∷ []

new_batch-IsFresh : IsFresh new_batch table
unfolding find
new_batch-IsFresh = (refl, (refl, (refl, tt)))

before_second : (j : ℕ) → j < 1 → second_fails.statement_fails j ≡ false
before_second zero l = refl
before_second (suc j) l = absurd (omega arith)

small_batch_partial_example :
    insert_events_batch second_fails new_batch table ≡ (err unavailable, table ++ event 2 ∷ [])
small_batch_partial_example =
    small_batch_partial second_fails new_batch table 1 new_batch-IsFresh (omega arith) (omega arith)
      refl before_second refl
