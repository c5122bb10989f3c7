-- ===== src/Mcp/Inputs.antt =====
-- crates/komodo-mcp/src/lib.rs: the inputs of the tools, what they must satisfy, and what they select.
pub mod Validate
pub mod Select
pub mod Selects
pub mod Found
pub mod Window
pub mod Search
pub mod Pages
