-- ===== src/Api/Failures.antt =====
-- crates/komodo-api/src/errors.rs: what is kept of the body of an unsuccessful response.
pub mod Project
pub mod Scan
pub mod Hides
pub mod Examples
