-- ===== src/Reconcile.antt =====
-- The reconcile loop's parts (master/internal/reconcile).
pub mod ImageCleanup
pub mod CrashLoop
