-- ===== src/Mcp/Reads.antt =====
-- crates/komodo-mcp/src/lib.rs, networks.rs and history.rs: the reading tools.
pub mod Inputs
pub mod History
pub mod Views
pub mod Normalize
pub mod StackViews
pub mod Methods
pub mod Stacks
pub mod Networks
pub mod Operations
pub mod Silent
pub mod SilentOperations
