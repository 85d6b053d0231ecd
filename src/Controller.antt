-- ===== src/Controller.antt =====
-- workflows/store_controller.py: the command-serialized controller of a store.
pub mod State
pub mod SyncInput
pub mod Sync
pub mod Deactivation
pub mod Events
pub mod Process
pub mod Remembered
pub mod Rules
pub mod Dedup
pub mod Generation
pub mod Retired
pub mod Exclusive
mod Tests
pub mod Window
