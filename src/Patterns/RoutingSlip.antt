-- ===== src/Patterns/RoutingSlip.antt =====
-- patterns/routingslip.py: messages that carry their own route.
pub mod Texts
pub mod Json
pub mod Slip
pub mod Reading
pub mod Travel
pub mod Accounted
pub mod Declared
pub mod Publishing
pub mod Journey
pub mod Builder
pub mod Visits
pub mod Parsed
mod Tests
