-- ===== src/Api/Inventory.antt =====
-- crates/komodo-api/src/inventory.rs: bounded pages of the inventory, and the resolution of selectors.
pub mod Pages
pub mod Resolve
pub mod Complete
mod Examples
