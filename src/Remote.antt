-- ===== src/Remote.antt =====
-- Package remote: requests over MQTT.
pub mod Http
mod Tests
