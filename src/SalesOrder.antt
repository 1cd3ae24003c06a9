-- ===== src/SalesOrder.antt =====
-- Orders of products (apps/backend/src/sales-order/sales-order.service.ts): the cart, and the
-- transaction that takes the stock and writes the order.
pub mod Cart
pub mod Write
pub mod Place
