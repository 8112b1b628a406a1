-- ===== src/History.antt =====
-- The telemetry history (backend/internal/history).
pub mod Recorder
