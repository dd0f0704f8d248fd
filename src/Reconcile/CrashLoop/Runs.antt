-- ===== src/Reconcile/CrashLoop/Runs.antt =====
-- Three failures in nine minutes.
use birdman.Base.{List, [], refl, true, ℕ, ◌<◌, ◌↔◌, ◌∷◌, ◌≡◌}
use birdman.Reconcile.CrashLoop.{crash_loop_paused_until, later_pause, pause_loop}
use birdman.Reconcile.CrashLoop.Pause.{HasLoop, crash_loop_paused_until_lem}

abbrev failures : List ℕ
failures = 60000000000 ∷ 300000000000 ∷ 600000000000 ∷ []

pauses : crash_loop_paused_until failures 700000000000 ≡ (1500000000000, true)
unfolding crash_loop_paused_until pause_loop later_pause
pauses = refl

crash_loop_paused_until_lem_example :
    (((crash_loop_paused_until failures 700000000000).1 ≡ true) ↔ HasLoop failures 700000000000)
    × (((crash_loop_paused_until failures 700000000000).1 ≡ true)
        ↔ (700000000000 < (crash_loop_paused_until failures 700000000000).0))
crash_loop_paused_until_lem_example = crash_loop_paused_until_lem failures 700000000000
