-- ===== src/Emulator.antt =====
-- The emulated device (backend/internal/device/emulator).
pub mod TxParser
pub mod Device
pub mod Dump
pub mod Handle
pub mod Control
