-- ===== src/Agent/Daemon.antt =====
-- The supervision of a node's servers (agent/internal/daemon).
pub mod Server
pub mod Scope
pub mod Supervise
pub mod Manager
pub mod Phases
pub mod Ownership
pub mod Balance
pub mod Invariant
pub mod Sharing
pub mod Reports
pub mod Told
pub mod History
pub mod Starting
pub mod Restoring
pub mod Images
pub mod Registries
mod Runs
