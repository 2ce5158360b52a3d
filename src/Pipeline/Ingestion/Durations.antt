-- ===== src/Pipeline/Ingestion/Durations.antt =====
-- The durations that src/pipeline/ingestion.rs keeps.
use analytics_hub.Prelude.{
  ℕ, suc, ◌≤◌, ◌≡◌, refl, sym, ◌∙◌, Bool, true, false, List, [], ◌∷◌, ◌++◌, length, length-append,
  length-drop, arith, Bool-cases, inl, inr, ltb, Outcome, ok, err, subst,
}
use analytics_hub.Schema.Event.{AnalyticsEvent}
use analytics_hub.Storage.{Faults, DbError, insert_events_batch}
use analytics_hub.Pipeline.Ingestion.{
  IngestionConfig, Ingester, Received, Moment, kafka_error, no_payload, malformed, decoded, send,
  send_all, store_events, time_batch, process_batch, flush, push_event, count_message, reject,
  handle, consume, should_flush, record_batch_duration, count_stored,
}

record_batch_duration-le :
    (free : Bool) (d : ℕ) (ds : List ℕ)
    → length ds ≤ 1000
    → length (record_batch_duration free d ds) ≤ 1000
unfolding record_batch_duration
record_batch_duration-le false d ds h = h
record_batch_duration-le true d ds h = elim (Bool-cases (ltb 1000 (length (ds ++ d ∷ [])))) [
  | inl full ↦ rw full (omega (arith, length-drop 100 (ds ++ d ∷ []), length-append ds (d ∷ [])))
  | inr room ↦ rw room (ground (arith))
]

module _ {P : Type 0} where
  abbrev durations : Ingester P → List ℕ
  durations s = s.metrics.batch_durations

  durations-send :
      (b : Bool) (e : AnalyticsEvent P) (s : Ingester P) → durations (send b e s) ≡ durations s
  unfolding send
  durations-send true e s = refl
  durations-send false e s = refl

  durations-send_all :
      (open_at : ℕ → Bool) (i : ℕ) (es : List (AnalyticsEvent P)) (s : Ingester P)
      → durations (send_all open_at i es s) ≡ durations s
  unfolding send_all
  durations-send_all open_at i [] s = refl
  durations-send_all open_at i (e ∷ es) s =
      durations-send_all open_at (suc i) es (send (open_at i) e s) ∙ durations-send (open_at i) e s

  durations-store_events :
      (f : Faults) (es : List (AnalyticsEvent P)) (s : Ingester P)
      → durations (store_events f es s) ≡ durations s
  unfolding store_events
  durations-store_events f es s = counted (insert_events_batch f es s.table).0
    where
      counted :
          (r : Outcome ℕ DbError)
          → (count_stored r (length es) s.metrics).batch_durations ≡ durations s
      counted (ok n) = refl
      counted (err x) = refl

  durations-flush-le :
      (m : Moment) (s : Ingester P)
      → length (durations s) ≤ 1000
      → length (durations (flush m s)) ≤ 1000
  unfolding flush process_batch time_batch
  durations-flush-le m s h =
      let s' : Ingester P = record s { batch = [] } in
      let stored = store_events m.faults s.batch s' in
      let same =
        durations-send_all m.receiver_open 0 s.batch stored
        ∙ durations-store_events m.faults s.batch s' in
      record_batch_duration-le m.lock_free m.duration _ (subst (λ l. length l ≤ 1000) (sym same) h)

  durations-push_event-le :
      (c : IngestionConfig) (m : Moment) (e : AnalyticsEvent P) (s : Ingester P)
      → length (durations s) ≤ 1000
      → length (durations (push_event c m e s)) ≤ 1000
  unfolding push_event
  durations-push_event-le c m e s h =
      let s' : Ingester P = record s { batch = s.batch ++ e ∷ [] } in
      elim (Bool-cases (should_flush c m s')) [
        | inl f ↦ rw f (durations-flush-le m s' h)
        | inr f ↦ rw f h
      ]

  -- However many batches are timed, at most a thousand durations are kept, if no more were before.
  pub durations_bounded :
      (c : IngestionConfig) (rs : List (Moment × Received P)) (s : Ingester P)
      → length s.metrics.batch_durations ≤ 1000
      → length (consume c rs s).metrics.batch_durations ≤ 1000
  unfolding consume handle reject
  durations_bounded c [] s h = h
  durations_bounded c ((m, kafka_error) ∷ rs) s h = durations_bounded c rs _ h
  durations_bounded c ((m, no_payload) ∷ rs) s h = durations_bounded c rs _ h
  durations_bounded c ((m, malformed p) ∷ rs) s h = durations_bounded c rs _ h
  durations_bounded c ((m, decoded e) ∷ rs) s h =
      durations_bounded c rs _ (durations-push_event-le c m e (count_message s) h)
