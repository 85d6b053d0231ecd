-- ===== src/Models.antt =====
-- models/*.py: the messages and the durable state.
pub mod Operations
pub mod Quota
pub mod Lifecycle
pub mod Documents
pub mod Sync
