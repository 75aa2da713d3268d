-- ===== src/Net4mqtt.antt =====
-- libs/net4mqtt/src: sockets over MQTT.
pub mod Topic
