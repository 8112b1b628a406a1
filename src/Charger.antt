-- ===== src/Charger.antt =====
-- The charge engine (backend/internal/charger).
pub mod Plan
pub mod Tick
pub mod Run
pub mod Manager
