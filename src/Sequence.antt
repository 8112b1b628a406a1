-- ===== src/Sequence.antt =====
-- The programmable sequences (backend/internal/sequence).
pub mod Program
pub mod Run
pub mod Manager
