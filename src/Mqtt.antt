-- ===== src/Mqtt.antt =====
-- The MQTT side of the plugs, in api/mqtt: the layout of the topics (parser.go, and the command topic
-- of publisher.go), the plug cache (plug_cache.go), the dispatcher's record of relay states with its
-- power confirmers (dispatcher.go), and the wait for a confirmation (publisher.go). The decoding of
-- JSON payloads, the broker and log lines are left out.
pub mod Topic
pub mod Cache
pub mod Relay
