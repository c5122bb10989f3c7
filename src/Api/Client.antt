-- ===== src/Api/Client.antt =====
-- crates/komodo-api/src/lib.rs: `Client`.
pub mod Http
pub mod Version
pub mod Requests
pub mod Address
pub mod Posts
pub mod Writes
pub mod Fresh
pub mod Bounded
pub mod Hides
mod Examples
