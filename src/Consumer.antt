-- ===== src/Consumer.antt =====
-- The `Consumer` of src/acemq_amqp/connection.py: what it does to the broker, one delivery after
-- another. Its parts are below: the state and its effects, the decision, the settlement of a
-- delivery, and the loop over deliveries.
pub mod Effects
pub mod Decide
pub mod Settle
pub mod Deliver
pub mod Ledger
pub mod Conserved
pub mod Returns
pub mod Decided
pub mod Copies
pub mod Verdict
mod Tests
