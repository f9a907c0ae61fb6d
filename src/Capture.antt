-- ===== src/Capture.antt =====
-- internal/capture: the gates that its workers share.
pub mod HostGate
pub mod SpaceGate
