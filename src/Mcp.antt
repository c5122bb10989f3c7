-- ===== src/Mcp.antt =====
-- crates/komodo-mcp: the tools, their inputs and their outputs.
pub mod Execution
pub mod Files
pub mod Errors
pub mod Profile
pub mod Inputs
pub mod Tasks
pub mod Operations
pub mod Mutations
pub mod Reads
pub mod Serve
mod Examples
