-- ===== src/Protocol.antt =====
-- The serial protocol of the DPS-150 (backend/internal/device/protocol): frames, their
-- streaming decoder, the commands of the host and the typed events of the device.
-- A byte is a number below 256 and a Go byte slice is a list of numbers.
pub mod Register
pub mod Frame
pub mod Word
pub mod Scan
pub mod Parser
pub mod Encode
pub mod Event
pub mod Decode
