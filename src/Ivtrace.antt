-- ===== src/Ivtrace.antt =====
-- backend/internal/ivtrace: the I-V tracer.
pub mod Plan
pub mod Tick
pub mod Run
pub mod Manager
pub mod Fit
pub mod Analyze
