-- ===== src/Nats.antt =====
-- internal/presentation/event_broker/nats: the pull consumers of JetStream and the handlers of the
-- registration saga's commands.
pub mod PullConsumer
pub mod Client
pub mod Bootstrap
pub mod Errors
pub mod Broker
pub mod Reasons
pub mod Mapper
pub mod Saga
