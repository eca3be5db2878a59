-- ===== src/Kafka.antt =====
-- internal/kafka: the watcher that creates a flow in Arroyo for each new sensor topic.
pub mod Flow
pub mod Watcher
pub mod Laws
pub mod Requested
pub mod Complete
pub mod Run
