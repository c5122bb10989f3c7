-- ===== src/Mcp/Tasks.antt =====
-- crates/komodo-mcp/src/lib.rs and errors.rs: the handler, the calls that its methods make, and what
-- they have in common.
pub mod Calls
pub mod Report
pub mod Quiet
pub mod Counted
