-- ===== src/System.antt =====
-- The services together: every operation keeps the books of the events.
pub mod Booked
pub mod Draws
pub mod Payments
pub mod Seats
pub mod Operators
pub mod Steps
pub mod Invariant
