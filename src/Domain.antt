-- ===== src/Domain.antt =====
-- internal/domain: the types that the components exchange, and their validation.
pub mod Errors
pub mod Event
pub mod Key
pub mod Command
mod Examples
