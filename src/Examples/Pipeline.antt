-- ===== src/Examples/Pipeline.antt =====
-- The pipeline and the consumer at concrete inputs.
use analytics_hub.Prelude.{ℕ, ◌+◌, ◌≡◌, refl, String, true, false, List, [], ◌∷◌, ◌++◌, ok, arith}
use analytics_hub.Schema.Event.{AnalyticsEvent}
use analytics_hub.Pipeline.Processing.{ProcessingStats}
use analytics_hub.Pipeline.Processing.Batch.{enriched}
use analytics_hub.Pipeline.Ingestion.{
  IngestionConfig, new_metrics, Ingester, Moment, Received, malformed, decoded, consume,
}
use analytics_hub.Pipeline.Ingestion.Conservation.{events, held, consume_keeps_order}
use analytics_hub.Pipeline.Flow.{Broadcast, Pipeline, run_batch}
use analytics_hub.Pipeline.Flow.Batches
use analytics_hub.Examples.Data.{counting_server, event, unversioned, no_faults, second_fails}

abbrev arrivals : List (String × AnalyticsEvent String)
arrivals = ("10:00", event 1) ∷ ("10:01", unversioned) ∷ ("10:02", event 2) ∷ []

abbrev stats : ProcessingStats
stats = record { events_processed = 5; events_failed = 0 }

abbrev config : IngestionConfig
config = record { batch_size = 2; enable_dlq = true }

-- A moment at which the second statement of a batch fails.
abbrev moment : ℕ → Moment
moment now = record {
  now = now;
  flushed_at = now + 3;
  duration = 3;
  faults = second_fails;
  receiver_open = λ i. true;
  dlq_accepts = true;
  lock_free = true;
}

abbrev ingester : Ingester String
ingester = record {
  batch = event 1 ∷ [];
  last_flush = 0;
  metrics = new_metrics;
  queue = [];
  dead_letters = [];
  table = [];
}

abbrev messages : List (Moment × Received String)
messages =
    (moment 10, decoded (event 2))
    ∷ (moment 20, malformed "{")
    ∷ (moment 30, decoded (event 3))
    ∷ (moment 900, decoded (event 4))
    ∷ []

consume_keeps_order_example :
    held (consume config messages ingester) ≡ held ingester ++ events messages
consume_keeps_order_example =
    consume_keeps_order config messages ingester
      ((λ i. refl), ((λ i. refl), ((λ i. refl), ((λ i. refl), tt))))

-- A channel that retains one event.
abbrev one_kept : Broadcast (AnalyticsEvent String)
one_kept = record {
  Channel = List (AnalyticsEvent String);
  SendError = String;
  send = λ e c. (ok 1, e ∷ []);
}

abbrev pipeline : Pipeline counting_server String one_kept
pipeline = record {
  stats = stats;
  table = [];
  cache = record { connected = false; server = 0 };
  event_tx = [];
}

run_batch_lem_example :
    Batches.LeftBehind counting_server one_kept
      (enriched arrivals)
      pipeline
      (run_batch counting_server String one_kept arrivals no_faults pipeline).0
      (run_batch counting_server String one_kept arrivals no_faults pipeline).1
run_batch_lem_example =
    Batches.run_batch_lem counting_server one_kept arrivals no_faults pipeline (omega arith)
      (omega arith)
