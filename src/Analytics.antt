-- ===== src/Analytics.antt =====
-- src/analytics: time windows, statistics, aggregation and anomalies.
pub mod Window
pub mod Statistics
pub mod Engine
pub mod Anomaly
pub mod Correlation
pub mod Aggregation
pub mod Prediction
