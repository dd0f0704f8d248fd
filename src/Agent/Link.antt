-- ===== src/Agent/Link.antt =====
-- The agent's side of the link to the master (agent/internal/link): the outbox of client.go's
-- sessions, and the cache of command ids that makes replayed commands harmless.
pub mod Outbox
pub mod CmdCache
