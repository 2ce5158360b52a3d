-- ===== src/Pipeline/Ingestion/Bounds.antt =====
-- How large the buffers of src/pipeline/ingestion.rs become, and what its counters count.
use analytics_hub.Prelude.{
  ℕ, suc, ◌+◌, ◌<◌, ◌≡◌, refl, Bool, true, false, List, [], ◌∷◌, ◌++◌, length, length-append, u64,
  arith, Bool-cases, inl, inr, Outcome, ok, err,
}
use analytics_hub.Schema.Event.{AnalyticsEvent}
use analytics_hub.Storage.{Faults, DbError, insert_events_batch}
use analytics_hub.Pipeline.Ingestion.{
  IngestionConfig, Ingester, Received, Moment, kafka_error, no_payload, malformed, decoded, send,
  send_all, store_events, time_batch, process_batch, flush, push_event, count_message, reject,
  handle, consume, should_flush, count_stored,
}
use analytics_hub.Pipeline.Ingestion.Conservation.{events, batch-flush}

module _ {P : Type 0} where
  batch_bounded_push :
      (c : IngestionConfig) (m : Moment) (e : AnalyticsEvent P) (s : Ingester P)
      → 0 < c.batch_size
      → length (push_event c m e s).batch < c.batch_size
  unfolding push_event
  batch_bounded_push c m e s h =
      let s' : Ingester P = record s { batch = s.batch ++ e ∷ [] } in
      elim (Bool-cases (should_flush c m s')) [
        | inl f ↦ rw (f, batch-flush m s') h
        | inr f ↦ rw f (ground (arith, f))
      ]

  -- Between two messages the open batch is smaller than the batch size, which is not 0.
  pub batch_bounded :
      (c : IngestionConfig) (rs : List (Moment × Received P)) (s : Ingester P)
      → length s.batch < c.batch_size
      → length (consume c rs s).batch < c.batch_size
  unfolding consume handle reject
  batch_bounded c [] s h = h
  batch_bounded c ((m, kafka_error) ∷ rs) s h = batch_bounded c rs _ h
  batch_bounded c ((m, no_payload) ∷ rs) s h = batch_bounded c rs _ h
  batch_bounded c ((m, malformed p) ∷ rs) s h = batch_bounded c rs _ h
  batch_bounded c ((m, decoded e) ∷ rs) s h =
      batch_bounded c rs _ (batch_bounded_push c m e (count_message s) (omega arith))

  -- Every event that left the batch was counted as processed or as an error.
  abbrev pub accounted : Ingester P → ℕ
  accounted s = s.metrics.events_processed + s.metrics.processing_errors + length s.batch

  accounted-send :
      (b : Bool) (e : AnalyticsEvent P) (s : Ingester P)
      → u64 (accounted (send b e s)) ≡ u64 (accounted s + 1)
  unfolding send
  accounted-send true e s = omega arith
  accounted-send false e s = omega arith

  accounted-send_all :
      (open_at : ℕ → Bool) (i : ℕ) (es : List (AnalyticsEvent P)) (s : Ingester P)
      → u64 (accounted (send_all open_at i es s)) ≡ u64 (accounted s + length es)
  unfolding send_all
  accounted-send_all open_at i [] s = omega arith
  accounted-send_all open_at i (e ∷ es) s = omega (
    arith,
    accounted-send_all open_at (suc i) es (send (open_at i) e s),
    accounted-send (open_at i) e s,
  )

  accounted-store_events :
      (f : Faults) (es : List (AnalyticsEvent P)) (s : Ingester P)
      → accounted (store_events f es s) ≡ accounted s
  unfolding store_events
  accounted-store_events f es s = counted (insert_events_batch f es s.table).0
    where
      counted :
          (r : Outcome ℕ DbError)
          → (count_stored r (length es) s.metrics).events_processed
              + (count_stored r (length es) s.metrics).processing_errors
              + length s.batch
            ≡ accounted s
      counted (ok n) = refl
      counted (err x) = refl

  accounted-flush : (m : Moment) (s : Ingester P) → u64 (accounted (flush m s)) ≡ u64 (accounted s)
  unfolding flush process_batch store_events time_batch
  accounted-flush m s = omega (
    arith,
    accounted-send_all m.receiver_open 0 s.batch
        (store_events m.faults s.batch (record s { batch = [] })),
    accounted-store_events m.faults s.batch (record s { batch = [] }),
  )

  accounted-push_event :
      (c : IngestionConfig) (m : Moment) (e : AnalyticsEvent P) (s : Ingester P)
      → u64 (accounted (push_event c m e s)) ≡ u64 (accounted s + 1)
  unfolding push_event
  accounted-push_event c m e s =
      let s' : Ingester P = record s { batch = s.batch ++ e ∷ [] } in
      elim (Bool-cases (should_flush c m s')) [
        | inl f ↦ rw f (omega (arith, accounted-flush m s', length-append s.batch (e ∷ [])))
        | inr f ↦ rw f (omega (arith, length-append s.batch (e ∷ [])))
      ]

  -- Every event that arrives is in the open batch, or was counted once as processed or as a
  -- processing error, modulo 2^64, whether the receiver of the channel is there or not.
  pub consume_accounts :
      (c : IngestionConfig) (rs : List (Moment × Received P)) (s : Ingester P)
      → u64 (accounted (consume c rs s)) ≡ u64 (accounted s + length (events rs))
  unfolding consume handle reject
  consume_accounts c [] s = omega arith
  consume_accounts c ((m, kafka_error) ∷ rs) s = consume_accounts c rs _
  consume_accounts c ((m, no_payload) ∷ rs) s = consume_accounts c rs _
  consume_accounts c ((m, malformed p) ∷ rs) s = consume_accounts c rs _
  consume_accounts c ((m, decoded e) ∷ rs) s = omega (
    arith,
    consume_accounts c rs (push_event c m e (count_message s)),
    accounted-push_event c m e (count_message s),
  )
