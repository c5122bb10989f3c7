-- ===== src/Server/Stdio.antt =====
-- crates/komodo-server/src/stdio.rs: the transport over standard input and output.
pub mod Transport
pub mod Frames
pub mod Pending
mod Examples
