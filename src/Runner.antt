-- ===== src/Runner.antt =====
-- The execution of permitted system calls: crates/adesh-daemon/src/http/routes.rs.
pub mod World
pub mod Execute
pub mod Handlers
pub mod Quiet
pub mod Spent
pub mod Taken
pub mod Attempts
pub mod Once
pub mod Sequence
pub mod Handled
pub mod Refused
mod Examples
