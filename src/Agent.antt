-- ===== src/Agent.antt =====
-- The node agent (agent/internal).
pub mod Ports
pub mod Lifecycle
pub mod Link
pub mod ImageGc
pub mod Uds
pub mod Daemon
pub mod Logs
