-- ===== src/Mcp/Operations.antt =====
-- crates/komodo-mcp/src/lib.rs and crates/komodo-api/src/operations.rs: operations, their outcome and
-- the filter of `operations.search`.
pub mod Outcome
pub mod Filter
pub mod Matches
