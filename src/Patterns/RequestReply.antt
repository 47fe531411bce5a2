-- ===== src/Patterns/RequestReply.antt =====
-- patterns/requestreply.py: requests that wait for their replies, and the service that answers them.
pub mod Requester
pub mod Matched
pub mod Responder
pub mod Answered
mod Tests
