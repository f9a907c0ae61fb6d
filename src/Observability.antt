-- ===== src/Observability.antt =====
-- internal/observability: the process-local state of operation.
pub mod State
pub mod Monitor
