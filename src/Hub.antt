-- ===== src/Hub.antt =====
-- The device hub (backend/internal/device): the state cache, the updates it fans out, and the
-- commands that it writes to the device.
pub mod State
pub mod Apply
pub mod Command
pub mod Safety
