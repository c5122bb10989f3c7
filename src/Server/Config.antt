-- ===== src/Server/Config.antt =====
-- crates/komodo-server/src/config.rs: the settings of the server, from its environment.
pub mod Numbers
pub mod Environment
pub mod Settings
pub mod Bounds
pub mod Restricted
mod Examples
