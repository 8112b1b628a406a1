-- ===== src/Notify.antt =====
-- The notifications and the metering sessions (backend/internal/notify).
pub mod Throttle
pub mod Settings
pub mod Service
