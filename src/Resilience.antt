-- ===== src/Resilience.antt =====
-- plugshub_common/resilience.py: the circuit breaker, the backoff and the retry loop.
pub mod Breaker
pub mod Retry
