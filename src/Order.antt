-- ===== src/Order.antt =====
-- apps/backend/src/order/order.service.ts: orders for tickets of a kuji event.
pub mod View
pub mod Shipping
pub mod Create
pub mod Place
pub mod Cancel
pub mod Sound
