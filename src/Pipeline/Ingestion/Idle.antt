-- ===== src/Pipeline/Ingestion/Idle.antt =====
-- When src/pipeline/ingestion.rs does not flush its batch, and what it publishes.
use analytics_hub.Prelude.{
  ℕ, ◌+◌, ◌≤◌, ◌≡◌, refl, List, [], ◌∷◌, count, u64, u64_max, arith, String, Outcome, ok, err,
  is_ok,
}
use analytics_hub.Pipeline.Ingestion.{
  IngestionConfig, IngestionMetrics, Ingester, Received, Moment, kafka_error, no_payload, malformed,
  decoded, reject, handle, consume, publish, publish_loop, publish_batch,
}
use analytics_hub.Pipeline.Ingestion.Conservation.{events}

module _ {P : Type 0} where
  -- However much time passes, and whatever else arrives, a batch is not flushed before the next
  -- event that deserialises: the batch, the channel and the table are as they were.
  pub waits_for_event :
      (c : IngestionConfig) (rs : List (Moment × Received P)) (s : Ingester P)
      → events rs ≡ []
      → ((consume c rs s).batch ≡ s.batch)
        × ((consume c rs s).queue ≡ s.queue)
        × ((consume c rs s).table ≡ s.table)
  unfolding consume handle reject
  waits_for_event c [] s h = (refl, refl, refl)
  waits_for_event c ((m, kafka_error) ∷ rs) s h = waits_for_event c rs _ h
  waits_for_event c ((m, no_payload) ∷ rs) s h = waits_for_event c rs _ h
  waits_for_event c ((m, malformed p) ∷ rs) s h = waits_for_event c rs _ h
  waits_for_event c ((m, decoded e) ∷ rs) s h = absurd (cc)

publish_loop_lem :
    (rs : List (Outcome (Unit {0}) String)) (sent : ℕ) (m : IngestionMetrics)
    → sent ≤ u64_max
    → m.messages_sent ≤ u64_max
    → publish_loop rs sent m ≡ (
      u64 (sent + count is_ok rs),
      record m { messages_sent = u64 (m.messages_sent + count is_ok rs) },
    )
unfolding publish_loop publish
publish_loop_lem [] sent m h k = ground arith
publish_loop_lem (ok x ∷ rs) sent m h k = ground (
  arith,
  publish_loop_lem rs (u64 (sent + 1)) (record m { messages_sent = u64 (m.messages_sent + 1) }),
)
publish_loop_lem (err x ∷ rs) sent m h k = ground (arith, publish_loop_lem rs sent m)

-- Publishing a batch never fails as a whole: it returns the number of events that Kafka took, and
-- counts these as sent, modulo 2^64. The counter before is a 64-bit number.
pub publish_batch_counts :
    (rs : List (Outcome (Unit {0}) String)) (m : IngestionMetrics)
    → m.messages_sent ≤ u64_max
    → publish_batch rs m ≡ (
      ok (u64 (count is_ok rs)),
      record m { messages_sent = u64 (m.messages_sent + count is_ok rs) },
    )
unfolding publish_batch
publish_batch_counts rs m h = ground (arith, publish_loop_lem rs 0 m)
