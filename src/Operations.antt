-- ===== src/Operations.antt =====
-- Operations, the unit of governed work of crates/adesh-storage-sqlite/src/storage.rs: their states,
-- `update_operation_state`, `cancel_operation`, `get_operation`, the status of a request, the status
-- of system calls, and the executions that are found again after a restart.
pub mod Create
pub mod Pinned
pub mod Created
pub mod States
pub mod Syscalls
pub mod Audit
pub mod Status
pub mod Cancelled
mod Examples
