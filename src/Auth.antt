-- ===== src/Auth.antt =====
-- Sessions and codes of the users (apps/backend/src/auth/auth.service.ts).
pub mod State
pub mod Sessions
pub mod Codes
