-- ===== src/Mqtt.antt =====
-- The bridge to MQTT (backend/internal/mqtt).
pub mod Service
