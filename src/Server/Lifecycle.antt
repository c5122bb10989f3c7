-- ===== src/Server/Lifecycle.antt =====
-- crates/komodo-server/src/lifecycle.rs: the lifetime of requests.
pub mod Limits
pub mod Permits
pub mod Scoped
pub mod Opened
pub mod Owners
mod Examples
