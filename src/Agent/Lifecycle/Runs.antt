-- ===== src/Agent/Lifecycle/Runs.antt =====
-- Machines at concrete inputs.
use mathlib.Core.List.{reverse}
use birdman.Base.{List, [], length, refl, true, ◌++◌, ◌+◌, ◌↔◌, ◌∷◌, ◌≡◌, ◌≤◌}
use birdman.Agent.Lifecycle.{
  Transition, Wake, allocated, done, new_machine, new_machine_at, pulling, ready, starting,
  subscribe, timer, watch_ready_grace,
}
use birdman.Agent.Lifecycle.Order.{
  Call, IsPath, moves_bounded, rank, run, run-new_machine_at-IsPath, step,
}
use birdman.Agent.Lifecycle.Grace.{stays, subscriber_misses_nothing, watch_ready_grace-fires}

abbrev match_life : List Call
match_life =
    (starting, "container started", 1)
    ∷ (allocated, "too early", 2)
    ∷ (ready, "liba ready", 3)
    ∷ (allocated, "allocated by master", 4)
    ∷ []

match_life_allocates : (run (new_machine "a") match_life).cur ≡ allocated
unfolding run step new_machine
match_life_allocates = refl

run-new_machine_at-IsPath_example :
    IsPath pulling
      (run (new_machine_at "a" pulling) match_life).cur
      (run (new_machine_at "a" pulling) match_life).log
run-new_machine_at-IsPath_example = run-new_machine_at-IsPath "a" pulling match_life

moves_bounded_example :
    length (run (new_machine_at "a" ready) match_life).log
      + rank (run (new_machine_at "a" ready) match_life).cur
    ≤ rank ready
moves_bounded_example = moves_bounded "a" ready match_life

subscriber_misses_nothing_example :
    (news : List Transition) × ((run (subscribe (new_machine_at "a" starting)) match_life).log
      ≡ news ++ (new_machine_at "a" starting).log)
    × ((run (subscribe (new_machine_at "a" starting)) match_life).subs ≡ reverse news ∷ [])
unfolding new_machine_at
subscriber_misses_nothing_example =
    subscriber_misses_nothing (new_machine_at "a" starting) match_life refl

abbrev late : List Wake
late = timer starting ∷ done ∷ []

watch_ready_grace-fires_example : (watch_ready_grace starting late ≡ true) ↔ (
    (starting ≡ starting)
    × ((before after : List Wake) × (late ≡ before ++ timer starting ∷ after)
        × (stays before ≡ true)))
watch_ready_grace-fires_example = watch_ready_grace-fires starting late
