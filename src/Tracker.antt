-- ===== src/Tracker.antt =====
-- The tracker: src/tracker of the crate.
pub mod Diff
pub mod Records
pub mod Parser
pub mod World
pub mod Base
pub mod Persist
pub mod Tick
pub mod Daemon
