-- ===== src/Server.antt =====
-- crates/komodo-server: the process that serves MCP over HTTP or standard input and output.
pub mod Auth
pub mod Files
pub mod Stdio
pub mod Config
pub mod Lifecycle
