-- ===== src/Auth.antt =====
-- services/auth: accounts, passwords and refresh tokens.
pub mod Password
pub mod Store
pub mod MemStore
pub mod PgStore
pub mod Service
pub mod Handlers
pub mod Tests
