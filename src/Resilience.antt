-- ===== src/Resilience.antt =====
-- src/resilience: the circuit breaker, the retry policy and their composition.
pub mod Breaker
pub mod Retry
pub mod Compose
