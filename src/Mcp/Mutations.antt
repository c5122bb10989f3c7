-- ===== src/Mcp/Mutations.antt =====
-- crates/komodo-mcp/src/lib.rs: the methods that mutate Komodo.
pub mod Submit
pub mod Patches
pub mod Methods
pub mod Valid
pub mod Applied
pub mod Once
pub mod Targets
pub mod Promises
pub mod Succeeds
pub mod Writes
pub mod Secrets
pub mod Single
mod Examples
