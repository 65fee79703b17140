-- ===== src/Registry.antt =====
-- The governance of capabilities in crates/adesh-storage-sqlite/src/storage.rs: the schema registry,
-- capability snapshots, the versions that are current, and the reviews by which the owner activates
-- another snapshot.
pub mod Canonical
pub mod Versions
pub mod Entries
pub mod Snapshots
pub mod Reviews
pub mod Supported
pub mod Governed
pub mod Decided
pub mod History
pub mod Registered
pub mod Reviewed
mod Examples
