-- ===== src/Jobs.antt =====
-- crates/adesh-storage-sqlite/src/job_queue.rs and crates/adesh-core/src/ports/job_queue.rs: the
-- job queue over the table `jobs` (migrations/0009_job_queue.sql). A row is a `Job`, the table the
-- list of its rows in the order of insertion.
mod Table
pub mod Enqueue
pub mod Lease
pub mod Retry
pub mod Finish
pub mod Row
pub mod Updates
pub mod Steps
pub mod Granted
pub mod Served
pub mod Backoff
pub mod History
pub mod Fencing
mod Examples
pub use Table.*
