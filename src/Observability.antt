-- ===== src/Observability.antt =====
-- app/observability: what the proxy measures and writes down of itself.
pub mod Metrics
pub mod Logging
