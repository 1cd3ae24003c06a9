-- ===== src/Draw.antt =====
-- apps/backend/src/draw/draw.service.ts: what a paid order wins.
pub mod Pick
pub mod Inventory
pub mod Result
pub mod Execute
