-- ===== src/Deactivation.antt =====
-- workflows/deactivate_store.py: the deactivation of a store, as an orchestration of a server's
-- calls.
pub mod Guard
pub mod Plan
pub mod Server
pub mod Requests
pub mod Workflow
pub mod Stages
pub mod Laws
pub mod Told
pub mod Stop
pub mod TearDown
pub mod Finish
pub mod Outcome
pub mod Store
pub mod Stored
pub mod Erasure
pub mod Answers
pub mod Refinement
pub mod Endings
mod Tests
