-- ===== src/Observability.antt =====
-- The observability queue of core/observability.
pub mod WriteQueue
pub mod Alerts
