-- ===== src/Memory.antt =====
-- The choice of claims of crates/adesh-daemon/src/cognition.rs.
pub mod Texts
pub mod Statements
pub mod Claims
pub mod Stored
pub mod States
pub mod Upserted
pub mod Greedy
pub mod Selected
mod Examples
