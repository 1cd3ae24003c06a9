-- ===== src/Tests.antt =====
-- The theorems at work in a small shop.
pub mod Fixtures
pub mod Orders
pub mod Seats
pub mod Payments
pub mod Draws
pub mod Gates
pub mod Sales
pub mod Addresses
pub mod Runs
pub mod Operators
pub mod Accounts
pub mod Limits
