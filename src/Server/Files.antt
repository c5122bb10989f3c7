-- ===== src/Server/Files.antt =====
-- crates/komodo-server/src/files.rs: native transfer of credential values outside model context.
pub mod Types
pub mod Grants
pub mod Authorize
pub mod Transfer
pub mod Body
pub mod Capacity
pub mod Bounded
pub mod Access
pub mod RoundTrip
pub mod Download
pub mod Http
pub mod Admits
pub mod Streams
pub mod Examples
mod HttpExamples
