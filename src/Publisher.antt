-- ===== src/Publisher.antt =====
-- connection.py: the publisher, and the gate that every publish of a connection goes through.
pub mod Outstanding
pub mod Interleaved
pub mod Answered
pub mod Sending
pub mod Batch
pub mod Recorded
pub mod Tests
