-- ===== src/Patterns.antt =====
-- src/acemq_amqp/patterns: the messaging patterns that are built on the consumer.
pub mod Idempotency
pub mod Saga
pub mod Scheduler
pub mod Outbox
pub mod Ordered
pub mod RoutingSlip
pub mod ClaimCheck
pub mod Pipeline
pub mod Replay
pub mod Schema
pub mod RequestReply
