-- ===== src/Pipeline.antt =====
-- src/pipeline: what happens to an event from Kafka to the database, the cache and the stream.
pub mod Processing
pub mod Ingestion
pub mod Cache
pub mod Flow
