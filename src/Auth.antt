-- ===== src/Auth.antt =====
-- The session gate: src/server/auth.rs, src/server/session.rs and config.rs, module `auth`.
pub mod Crates
pub mod Lockout
pub mod Token
pub mod Login
pub mod Headers
pub mod Types
pub mod Gate
pub mod Handlers
mod Runs
