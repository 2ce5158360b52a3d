-- ===== src/Examples.antt =====
-- The theorems at concrete inputs.
mod Data
mod Resilience
mod Storage
mod Pipeline
mod Engine
mod Correlation
mod Prediction
mod Backup
mod Api
mod Command
mod Cluster
mod Cli
mod Kafka
mod Adapters
mod Redis
mod Validation
