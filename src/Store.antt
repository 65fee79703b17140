-- ===== src/Store.antt =====
-- The tables of crates/adesh-storage-sqlite/migrations that approvals and operations live in, as one
-- record: a table is the list of its rows in the order of insertion. Columns that hold JSON texts
-- are kept as the values that they encode.
mod KernelRows
mod Rows
mod WorkflowRows
mod Responses
mod Tables
pub mod Idempotency
pub mod Stored
pub use KernelRows.*
pub use Rows.*
pub use WorkflowRows.*
pub use Responses.*
pub use Tables.*
