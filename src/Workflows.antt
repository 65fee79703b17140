-- ===== src/Workflows.antt =====
-- Workflows of crates/adesh-storage-sqlite/src/storage.rs: their specs and their instances.
pub mod Specs
pub mod Instances
pub mod Moves
pub mod Kept
pub mod Ended
pub mod Final
mod Examples
