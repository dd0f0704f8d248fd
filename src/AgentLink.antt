-- ===== src/AgentLink.antt =====
-- The master's side of the link to the agents (master/internal/agentlink).
pub mod Hub
pub mod Fleet
pub mod LogRouter
