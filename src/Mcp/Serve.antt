-- ===== src/Mcp/Serve.antt =====
-- crates/komodo-mcp/src/lib.rs: a call of a tool, from its name and arguments to its result.
pub mod Run
pub mod CallTool
pub mod Submissions
pub mod Failures
mod Examples
