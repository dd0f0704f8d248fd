-- ===== src/Reconcile/CrashLoop.antt =====
-- The pause of a version that keeps crashing on a node (`crashLoopPausedUntil`,
-- master/internal/reconcile/reconciler.go). Times are nanoseconds since one epoch, after 0, which is
-- the zero `time.Time`.
pub mod Pause
mod Runs
use birdman.Base.{
  Bool, List, Option, [], get_elem?, if◌then◌else◌, leb, ltb, none, some, ℕ, ◌&&◌, ◌*◌, ◌+◌, ◌-◌,
  ◌∷◌,
}

abbrev minute : ℕ
minute = 60000000000

abbrev pub crash_loop_fails : ℕ
crash_loop_fails = 3

abbrev pub crash_loop_window : ℕ
crash_loop_window = 10 * minute

abbrev pub crash_loop_pause : ℕ
crash_loop_pause = 15 * minute

-- One round of the loop: `last` is the last failure of the run that starts at `start`.
unfoldable pub later_pause : ℕ → ℕ → Option ℕ → ℕ
later_pause until start none = until
later_pause until start (some last) =
    if leb (last - start) crash_loop_window && ltb until (last + crash_loop_pause)
    then last + crash_loop_pause
    else until

unfoldable pub pause_loop : ℕ → List ℕ → ℕ
unfolding later_pause
pause_loop until [] = until
pause_loop until (t ∷ times) =
    pause_loop (later_pause until t (get_elem? (t ∷ times) (crash_loop_fails - 1))) times

unfoldable pub crash_loop_paused_until : List ℕ → ℕ → ℕ × Bool
unfolding pause_loop
crash_loop_paused_until times now = let until = pause_loop 0 times in (until, ltb now until)
