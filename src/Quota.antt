-- ===== src/Quota.antt =====
-- workflows/user_quota.py: the coordinator of one external quota scope.
pub mod Terminal
pub mod Requests
pub mod Cancel
pub mod Window
pub mod Grant
pub mod Compact
pub mod Coordinator
pub mod Invariant
pub mod Fairness
pub mod Stale
pub mod Bounds
mod Tests
