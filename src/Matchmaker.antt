-- ===== src/Matchmaker.antt =====
-- The matchmaker of the master (master/internal/matchmaker).
pub mod Compat
pub mod Groups
pub mod Tick
pub mod Queue
pub mod Snapshot
pub mod Settings
pub mod Merge
pub mod Regions
