-- ===== src/Ticket.antt =====
-- apps/backend/src/ticket/ticket.service.ts: the seats of a kuji event, dealt out in advance.
pub mod Slots
pub mod Seed
pub mod Reserve
pub mod Grid
