-- ===== src/Pipeline/Ingestion/Conservation.antt =====
-- The events between Kafka and the channel in src/pipeline/ingestion.rs.
use mathlib.Core.List.{append_assoc, append-nil}
use analytics_hub.Prelude.{
  ℕ, suc, ◌≡◌, refl, ap, sym, ◌∙◌, Bool, true, false, List, [], ◌∷◌, ◌++◌, Bool-cases, inl, inr,
}
use analytics_hub.Schema.Event.{AnalyticsEvent}
use analytics_hub.Pipeline.Ingestion.{
  IngestionConfig, Ingester, Received, Moment, kafka_error, no_payload, malformed, decoded, send,
  send_all, process_batch, flush, push_event, count_message, reject, handle, consume, should_flush,
}

module _ {P : Type 0} where
  -- The events of the messages that deserialise.
  abbrev pub events : List (Moment × Received P) → List (AnalyticsEvent P)
  events [] = []
  events ((m, decoded e) ∷ rs) = e ∷ events rs
  events ((m, kafka_error) ∷ rs) = events rs
  events ((m, no_payload) ∷ rs) = events rs
  events ((m, malformed p) ∷ rs) = events rs

  -- The receiver of the channel is there whenever the task sends.
  abbrev pub IsListening : List (Moment × Received P) → Type 0
  IsListening [] = Unit
  IsListening ((m, r) ∷ rs) = ((i : ℕ) → m.receiver_open i ≡ true) × IsListening rs

  queue-send :
      (b : Bool) (e : AnalyticsEvent P) (s : Ingester P)
      → b ≡ true
      → (send b e s).queue ≡ s.queue ++ e ∷ []
  unfolding send
  queue-send true e s h = refl
  queue-send false e s h = cc

  queue-send_all :
      (open_at : ℕ → Bool) (i : ℕ) (es : List (AnalyticsEvent P)) (s : Ingester P)
      → ((j : ℕ) → open_at j ≡ true)
      → (send_all open_at i es s).queue ≡ s.queue ++ es
  unfolding send_all
  queue-send_all open_at i [] s h = rw append-nil
  queue-send_all open_at i (e ∷ es) s h =
      queue-send_all open_at (suc i) es (send (open_at i) e s) h
      ∙ ap (λ q. q ++ es) (queue-send (open_at i) e s (h i))
      ∙ append_assoc s.queue (e ∷ []) es

  batch-send_all :
      (open_at : ℕ → Bool) (i : ℕ) (es : List (AnalyticsEvent P)) (s : Ingester P)
      → (send_all open_at i es s).batch ≡ s.batch
  unfolding send_all
  batch-send_all open_at i [] s = refl
  batch-send_all open_at i (e ∷ es) s =
      batch-send_all open_at (suc i) es (send (open_at i) e s) ∙ kept (open_at i)
    where
      kept : (b : Bool) → (send b e s).batch ≡ s.batch
      kept true = unfold send in refl
      kept false = unfold send in refl

  pub batch-flush : (m : Moment) (s : Ingester P) → (flush m s).batch ≡ []
  unfolding flush process_batch
  batch-flush m s = batch-send_all m.receiver_open 0 s.batch _

  queue-flush :
      (m : Moment) (s : Ingester P)
      → ((j : ℕ) → m.receiver_open j ≡ true)
      → (flush m s).queue ≡ s.queue ++ s.batch
  unfolding flush process_batch
  queue-flush m s h = queue-send_all m.receiver_open 0 s.batch _ h

  -- What an event still has to go through, and has gone through.
  abbrev pub held : Ingester P → List (AnalyticsEvent P)
  held s = s.queue ++ s.batch

  held-push_event :
      (c : IngestionConfig) (m : Moment) (e : AnalyticsEvent P) (s : Ingester P)
      → ((j : ℕ) → m.receiver_open j ≡ true)
      → held (push_event c m e s) ≡ held s ++ e ∷ []
  unfolding push_event
  held-push_event c m e s h =
      elim (Bool-cases (should_flush c m (record s { batch = s.batch ++ e ∷ [] }))) [
        | inl f ↦
            rw
              (
                f,
                queue-flush m (record s { batch = s.batch ++ e ∷ [] }) h,
                batch-flush m (record s { batch = s.batch ++ e ∷ [] }),
                append-nil,
              )
              (sym (append_assoc s.queue s.batch (e ∷ [])))
        | inr f ↦ rw f (sym (append_assoc s.queue s.batch (e ∷ [])))
      ]

  -- While the receiver of the channel is there, the events sent to it and those in the open batch
  -- are, in this order, those of before followed by all events that arrived: none is lost,
  -- repeated or moved, whatever errors come between and whether or not the database takes them.
  pub consume_keeps_order :
      (c : IngestionConfig) (rs : List (Moment × Received P)) (s : Ingester P)
      → IsListening rs
      → held (consume c rs s) ≡ held s ++ events rs
  unfolding consume handle reject
  consume_keeps_order c [] s h = rw append-nil
  consume_keeps_order c ((m, kafka_error) ∷ rs) s h = consume_keeps_order c rs _ h.1
  consume_keeps_order c ((m, no_payload) ∷ rs) s h = consume_keeps_order c rs _ h.1
  consume_keeps_order c ((m, malformed p) ∷ rs) s h = consume_keeps_order c rs _ h.1
  consume_keeps_order c ((m, decoded e) ∷ rs) s h =
      consume_keeps_order c rs (push_event c m e (count_message s)) h.1
      ∙ ap (λ l. l ++ events rs) (held-push_event c m e (count_message s) h.0)
      ∙ append_assoc (held s) (e ∷ []) (events rs)
