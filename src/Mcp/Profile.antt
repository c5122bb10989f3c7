-- ===== src/Mcp/Profile.antt =====
-- crates/komodo-mcp/src/lib.rs: which tools a handler offers and runs.
pub mod Registry
pub mod Dispatch
pub mod Catalog
