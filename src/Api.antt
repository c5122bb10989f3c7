-- ===== src/Api.antt =====
-- crates/komodo-api: the client of Komodo Core.
pub mod Resources
pub mod Types
pub mod Errors
pub mod Credentials
pub mod Inventory
pub mod Json
pub mod Failures
pub mod Networks
pub mod Stacks
pub mod Operations
pub mod Client
