-- ===== src/Pipeline/Ingestion.antt =====
-- src/pipeline/ingestion.rs: the consumer task that `EventIngester::start` spawns, one message at a
-- time, and publishing. The counters are `AtomicU64`, whose `fetch_add` wraps.
pub mod Conservation
pub mod Bounds
pub mod Durations
pub mod Idle
use analytics_hub.Prelude.{
  ℕ, zero, suc, ◌+◌, ◌-◌, String, Bool, true, false, ◌||◌, List, [], ◌∷◌, ◌++◌, Outcome, ok, err,
  if◌then◌else◌, leb, ltb, length, drop, u64,
}
use analytics_hub.Schema.Event.{AnalyticsEvent}
use analytics_hub.Storage.{DbError, Faults, Table, insert_events_batch}

-- The fields that the task reads.
pub record IngestionConfig : Type 0 where
  pub batch_size : ℕ
  pub enable_dlq : Bool

-- Without `start_time`, which only the throughput reads.
pub record IngestionMetrics : Type 0 where
  pub messages_received : ℕ
  pub messages_sent : ℕ
  pub events_processed : ℕ
  pub events_stored : ℕ
  pub deserialization_errors : ℕ
  pub storage_errors : ℕ
  pub processing_errors : ℕ
  pub kafka_errors : ℕ
  pub batch_durations : List ℕ

-- `IngestionMetrics::new`
abbrev pub new_metrics : IngestionMetrics
new_metrics = record {
  messages_received = 0;
  messages_sent = 0;
  events_processed = 0;
  events_stored = 0;
  deserialization_errors = 0;
  storage_errors = 0;
  processing_errors = 0;
  kafka_errors = 0;
  batch_durations = [];
}

-- The variables of the task, with what it writes to: the channel to the processing pipeline, the
-- dead letter queue and the database.
pub record Ingester (P : Type 0) : Type 0 where
  pub batch : List (AnalyticsEvent P)
  pub last_flush : ℕ
  pub metrics : IngestionMetrics
  pub queue : List (AnalyticsEvent P)
  pub dead_letters : List String
  pub table : Table P

-- What `consumer.recv()` gives: an error, a message with no payload, one whose payload does not
-- deserialise, or an event.
pub data Received (P : Type 0) : Type 0 where
  kafka_error no_payload : Received P
  malformed : String → Received P
  decoded : AnalyticsEvent P → Received P

-- What the task meets while it handles one message: the times in milliseconds, the faults of the
-- database, whether the receiver of the channel is still there for each event of a batch, whether
-- the dead letter queue takes the message and whether the lock on the durations is free.
pub record Moment : Type 0 where
  pub now : ℕ
  pub flushed_at : ℕ
  pub duration : ℕ
  pub faults : Faults
  pub receiver_open : ℕ → Bool
  pub dlq_accepts : Bool
  pub lock_free : Bool

-- `record_batch_duration`
unfoldable pub record_batch_duration : Bool → ℕ → List ℕ → List ℕ
record_batch_duration false d ds = ds
record_batch_duration true d ds =
    let ds' = ds ++ d ∷ [] in if ltb 1000 (length ds') then drop 100 ds' else ds'

abbrev pub count_stored : Outcome ℕ DbError → ℕ → IngestionMetrics → IngestionMetrics
count_stored (ok inserted) n m = record m { events_stored = u64 (m.events_stored + inserted) }
count_stored (err _) n m = record m { storage_errors = u64 (m.storage_errors + n) }

module _ {P : Type 0} where
  -- `tx.send(event)` and the counter after it.
  unfoldable pub send : Bool → AnalyticsEvent P → Ingester P → Ingester P
  send true e s = record s {
    queue = s.queue ++ e ∷ [];
    metrics = record (s.metrics) { events_processed = u64 (s.metrics.events_processed + 1) };
  }
  send false e s = record s {
    metrics = record (s.metrics) { processing_errors = u64 (s.metrics.processing_errors + 1) };
  }

  unfoldable pub send_all : (ℕ → Bool) → ℕ → List (AnalyticsEvent P) → Ingester P → Ingester P
  send_all open_at i [] s = s
  send_all open_at i (e ∷ es) s = send_all open_at (suc i) es (send (open_at i) e s)

  -- The first half of `process_batch`.
  unfoldable pub store_events : Faults → List (AnalyticsEvent P) → Ingester P → Ingester P
  store_events f es s =
      let (r, t) = insert_events_batch f es s.table in
      record s { table = t; metrics = count_stored r (length es) s.metrics }

  unfoldable pub time_batch : Moment → Ingester P → Ingester P
  time_batch m s = record s {
    metrics = record (s.metrics) {
      batch_durations = record_batch_duration m.lock_free m.duration s.metrics.batch_durations;
    };
  }

  unfoldable pub process_batch : Moment → List (AnalyticsEvent P) → Ingester P → Ingester P
  unfolding store_events time_batch
  process_batch m es s = time_batch m (send_all m.receiver_open 0 es (store_events m.faults es s))

  -- `should_flush`, where the event is pushed already.
  abbrev pub should_flush : IngestionConfig → Moment → Ingester P → Bool
  should_flush c m s = leb c.batch_size (length s.batch) || leb 500 (m.now - s.last_flush)

  -- `std::mem::replace` empties the batch before `process_batch`.
  unfoldable pub flush : Moment → Ingester P → Ingester P
  flush m s = record (process_batch m s.batch (record s { batch = [] })) {
    last_flush = m.flushed_at;
  }

  unfoldable pub push_event : IngestionConfig → Moment → AnalyticsEvent P → Ingester P → Ingester P
  push_event c m e s =
      let s' = record s { batch = s.batch ++ e ∷ [] } in
      if should_flush c m s' then flush m s' else s'

  abbrev pub count_message : Ingester P → Ingester P
  count_message s = record s {
    metrics = record (s.metrics) { messages_received = u64 (s.metrics.messages_received + 1) };
  }

  unfoldable pub reject : IngestionConfig → Moment → String → Ingester P → Ingester P
  reject c m payload s = record s {
    metrics = record (s.metrics) {
      deserialization_errors = u64 (s.metrics.deserialization_errors + 1);
    };
    dead_letters =
        if c.enable_dlq
        then if m.dlq_accepts then s.dead_letters ++ payload ∷ [] else s.dead_letters
        else s.dead_letters;
  }

  -- One turn of the loop in `start`.
  unfoldable pub handle : IngestionConfig → Moment → Received P → Ingester P → Ingester P
  handle c m kafka_error s = record s {
    metrics = record (s.metrics) { kafka_errors = u64 (s.metrics.kafka_errors + 1) };
  }
  handle c m no_payload s = count_message s
  handle c m (malformed payload) s = reject c m payload (count_message s)
  handle c m (decoded e) s = push_event c m e (count_message s)

  unfoldable pub consume : IngestionConfig → List (Moment × Received P) → Ingester P → Ingester P
  consume c [] s = s
  consume c ((m, r) ∷ messages) s = consume c messages (handle c m r s)

-- `publish`: whether the event serialises and Kafka takes the record is an argument.
unfoldable pub publish :
    Outcome (Unit {0}) String → IngestionMetrics → Outcome (Unit {0}) String × IngestionMetrics
publish (ok _) m = (ok tt, record m { messages_sent = u64 (m.messages_sent + 1) })
publish (err e) m = (err e, m)

abbrev pub count_sent : Outcome (Unit {0}) String → ℕ → ℕ
count_sent (ok _) sent = u64 (sent + 1)
count_sent (err _) sent = sent

-- The loop of `publish_batch`, with `sent` so far.
unfoldable pub publish_loop :
    List (Outcome (Unit {0}) String) → ℕ → IngestionMetrics → ℕ × IngestionMetrics
publish_loop [] sent m = (sent, m)
publish_loop (r ∷ rs) sent m = let (r', m') = publish r m in publish_loop rs (count_sent r' sent) m'

unfoldable pub publish_batch :
    List (Outcome (Unit {0}) String) → IngestionMetrics → Outcome ℕ String × IngestionMetrics
unfolding publish_loop
publish_batch rs m = let (sent, m') = publish_loop rs 0 m in (ok sent, m')
