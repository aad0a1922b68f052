-- ===== src/Api.antt =====
-- internal/api: the HTTP handlers and the idempotency middleware.
pub mod Http
pub mod Mapper
pub mod Amount
pub mod Token
pub mod Auth
pub mod Accounts
pub mod Money
pub mod Queries
pub mod Idempotency
pub mod Steps
