-- ===== src/Schemas.antt =====
-- crates/adesh-core/src/action_schemas.rs: the actions that a capability snapshot offers, the
-- payloads that they take, and the validation of payloads against stored schemas.
pub mod Descriptor
pub mod Normalize
pub mod Results
pub mod Validate
pub mod Idempotence
pub mod Depth
pub mod Returns
mod Examples
