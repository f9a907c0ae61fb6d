-- ===== src/Store.antt =====
-- internal/store: the state machines that the store keeps in its tables.
pub mod Lease
pub mod Refetch
pub mod Capture
pub mod Files
