-- ===== src/Kafka.antt =====
-- internal/presentation/event_broker/kafka: the subscribers and the consumer loop that the service
-- runs.
pub mod Saga
pub mod Recovery
pub mod Consumer
pub mod Subscription
pub mod Readers
