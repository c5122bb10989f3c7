-- ===== src/Server/Auth.antt =====
-- crates/komodo-server/src/auth.rs: how the gateway is authenticated.
pub mod Bearers
pub mod Claims
pub mod Keys
pub mod Ingress
pub mod Examples
