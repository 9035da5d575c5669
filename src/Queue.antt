-- ===== src/Queue.antt =====
-- internal/queue: the Kafka envelopes and topics. The producer acts on the world: see Db.
pub mod Message
pub mod Producer
