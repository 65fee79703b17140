-- ===== src/Approvals.antt =====
-- The approvals of crates/adesh-storage-sqlite/src/storage.rs: an item that waits for the owner's
-- decision, an out-of-band challenge that may have to be verified first, and the decision, which
-- permits the action as a system call or denies it.
mod Examples
pub mod Items
pub mod Oob
pub mod Consume
pub mod Steps
pub mod Frames
pub mod Replay
pub mod Single
pub mod Challenged
pub mod Verified
pub mod Permitted
