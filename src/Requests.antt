-- ===== src/Requests.antt =====
-- The submission of a request: `submit_request` of crates/adesh-daemon/src/http/routes.rs, and the
-- methods of storage.rs for what it stores.
pub mod Records
pub mod Artifacts
pub mod Submit
pub mod Grants
pub mod Sends
pub mod Repeated
pub mod Kept
mod Examples
