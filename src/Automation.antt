-- ===== src/Automation.antt =====
-- The automation rules (backend/internal/automation).
pub mod Engine
