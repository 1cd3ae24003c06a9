-- ===== src/AdminOrder.antt =====
-- What an operator does with orders (apps/backend/src/payment/admin-order.controller.ts).
pub mod Preorders
pub mod Pickups
pub mod Shipments
