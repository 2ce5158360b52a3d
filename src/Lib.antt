-- ===== src/Lib.antt =====
-- The LLM analytics hub (Rust): it takes events of other services from Kafka, validates and
-- enriches them, writes them to TimescaleDB and Redis, streams them to subscribers, and computes
-- statistics.
--
-- How the parts interact. The consumer of src/pipeline/ingestion.rs collects events into batches,
-- writes each batch through `Database::insert_events_batch` and sends its events to a channel.
-- `Pipeline` (src/pipeline/mod.rs) takes an event, or a batch, through the processor, the storage
-- manager, the cache and the stream. Calls of unreliable services go through
-- `execute_with_resilience`, a retry loop behind a circuit breaker. The analytics align times to
-- windows and compute measures of the values in one; the correlation engine links the events that
-- it buffers, and the prediction engine forecasts metrics from their history. The infrastructure's
-- checks report what they found through the validation types; backups are uploaded to, verified in
-- and removed from an object store. The API answers with pages and with server-sent events. The
-- command line validates the hub by all validators in turn, and cleans up what was deployed.
--
-- Which file models which part:
--   Prelude          tests on native numbers, lists, results, integers, maps, effects, and `FloatOps`,
--                    the operations of f64 as a record that the definitions take as a parameter
--   Resilience       Breaker: src/resilience/circuit_breaker.rs; Retry: src/resilience/retry.rs;
--                    Compose: `execute_with_resilience` of src/resilience/mod.rs
--   Schema           src/schemas/events.rs: Event, the common fields; Payload, the payloads as JSON
--   Storage          the writers of events of src/pipeline/storage.rs and src/database/mod.rs
--   Pipeline         Processing: src/pipeline/processing.rs; Ingestion: src/pipeline/ingestion.rs;
--                    Cache: src/pipeline/cache.rs; Flow: src/pipeline/mod.rs and src/pipeline/stream.rs
--   Analytics        Window: `TimeWindow` of src/models/metrics.rs and its alignment; Statistics:
--                    `compute_statistics`, and Engine the rest, of
--                    src/analytics/aggregation_engine.rs; Aggregation: the engine in memory of
--                    src/analytics/aggregation.rs; Anomaly: src/analytics/anomaly.rs; Correlation:
--                    src/analytics/correlation_engine.rs, with Detection, what is detected, and Process,
--                    the engine and its table; Prediction: src/analytics/prediction.rs, with Forecast
--   Backup           src/infra/backup: types.rs; Store and Retention, s3.rs; Verifier, verification.rs
--   Api              src/models/api.rs: Pagination, and Sse, the text of a server-sent event
--   Cluster          the health checks of src/infra/k8s/health.rs: Health, the checks; Verdict, what they
--                    say; what they use of src/infra/k8s/client.rs; Shell, programs that run in a pod
--   Command          `CommandExecutor::execute` of src/common/executor.rs
--   Validation       src/infra/validation: the checks and their summaries, types.rs; Nodes, cluster.rs; and
--                    Prerequisites, Services, Databases, Network, Security and Resources, the files of
--                    the same names; Listing and Programs, what they ask of the cluster; Blame, Decisive,
--                    Health, Usage and Reach, which checks make a category unhealthy
--   Kafka            src/infra/kafka: types.rs; Topics, Acls and Verification, the files of the same names
--   Redis            src/infra/redis: types.rs; Cluster, cluster.rs
--   Adapters         src/adapters: the manager of mod.rs, and a file for each adapter with its types; Gate,
--                    what each does first; Connections, runs of calls
--   Cli              Cleanup: src/cli/utils/cleanup.rs, with Cloud, the programs that it runs; Validate:
--                    src/cli/validate
--   Examples         the theorems at concrete inputs
--
-- Definitions keep the names of the source. A method becomes a function from the state to the
-- state and the result; a result with an error is an `Outcome`. What a definition cannot know is
-- an argument: the clock, the outcomes of an operation, the faults of the database (`Faults`),
-- what Kafka delivers (`Received`, `Moment`), the identifiers and times that are drawn (`Draws`),
-- the Redis server (`Redis`), the channel of the stream (`Broadcast`), the times that chrono can
-- represent (`Chrono`), the object store (`ObjectStore`), the API server of
-- Kubernetes (`ApiServer`, `Listing`), the programs that run in a pod or on the user's machine
-- (`Shell`, `Programs`, `Tools`), the broker of Kafka (`Broker`), the user who answers questions
-- (`Outside`) and how values are written as text. A request whose answer the code drops is
-- recorded as a request; an upsert is recorded as sent, and replaces the row of its key. A run of
-- the validators sees one answer for each request to the cluster.
-- Methods that hold a lock for their whole body are atomic, so tasks that share a breaker are a
-- sequence of calls.
--
-- Numbers. Counters are `u64` and `usize`, of 64 bits, and wrap around as a release build does.
-- Times are nanoseconds: natural numbers on the monotonic clock, integers since the epoch. The
-- retry loop runs on fuel, one more than the attempts allowed, since each of its turns makes an
-- attempt.
--
-- The inner loop of the seasons runs on fuel, the number of values, since each of its turns passes
-- one. A map with concurrent access is the list of its entries, in an order that is not specified.
--
-- Not modelled: the structs that payloads hold, the tracker and the graphs of correlations (stubs
-- and data types), the time series and metadata models, the executors of the clouds and of
-- Terraform, manifests and scaling in Kubernetes, the pages in which a bucket is listed, the stream
-- of telemetry of an adapter (a channel and a task), what Kafka's programs print of topics and
-- permissions, the other commands of the command line, progress output, logging and tracing, and
-- the parts that are not Rust. SQL is executed by the server: a table is the list of its rows, with
-- the primary key and the conflict clause of each statement.
pub mod Prelude
pub mod Resilience
pub mod Schema
pub mod Storage
pub mod Pipeline
pub mod Analytics
pub mod Validation
pub mod Backup
pub mod Api
pub mod Command
pub mod Cluster
pub mod Cli
pub mod Kafka
pub mod Redis
pub mod Adapters
mod Examples
