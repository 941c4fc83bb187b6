-- ===== src/Auth.antt =====
-- internal/auth: who may call, and with what.
pub mod Identity
pub mod Revocation
pub mod Registration
