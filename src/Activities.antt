-- ===== src/Activities.antt =====
-- The activities around the repository: what they do with a method's answer and errors.
pub mod Ingestion
pub mod Commits
pub mod Lifecycle
pub mod Cleanup
pub mod Reports
mod Tests
