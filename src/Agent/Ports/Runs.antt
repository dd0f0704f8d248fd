-- ===== src/Agent/Ports/Runs.antt =====
-- The pool at concrete inputs.
use birdman.Base.{
  List, [], contains, false, nat_eq, none, pos, refl, some, string_eq, true, ℕ, ◌↔◌, ◌∷◌, ◌≡◌, ◌≤◌,
}
use birdman.Agent.Ports.{
  Call, Pool, acquire, acquires, capacity, claims, exhausted, granted, in_use_count, new, refused,
  release, releases, run,
}
use birdman.Agent.Ports.Ownership.{Inv, acquire-release, run-new-Inv}
use birdman.Agent.Ports.Exhaustion.{acquire-exhausted, in_use_count-le-capacity}

abbrev small : Pool
small = record { from = 7000; to = 7001; in_use = 7000 ∷ [] }

new_small : new (pos 7000) (pos 7001) ≡ some (record { from = 7000; to = 7001; in_use = [] })
unfolding new
new_small = refl

new_reversed : new (pos 7001) (pos 7000) ≡ none
unfolding new
new_reversed = refl

abbrev calls : List Call
calls = acquires ∷ claims 7001 ∷ releases 7000 ∷ acquires ∷ acquires ∷ []

run_calls :
    run (record { from = 7000; to = 7001; in_use = [] }) calls
    ≡ record { from = 7000; to = 7001; in_use = 7000 ∷ 7001 ∷ [] }
unfolding run
run_calls = refl

run-new-Inv_example : Inv (run (record { from = 7000; to = 7001; in_use = [] }) calls)
run-new-Inv_example = run-new-Inv (pos 7000) (pos 7001) _ calls new_small

acquire-release_example :
    (small.from ≤ 7001)
    × (7001 ≤ small.to)
    × (contains 7001 small.in_use ≡ false)
    × (release (acquire small).0 7001 ≡ (small, granted 7001))
unfolding acquire
acquire-release_example = acquire-release small 7001 refl

acquire-exhausted_pool :
    (((acquire small).1 ≡ refused exhausted)
      ↔ ((r : ℕ) → 7000 ≤ r → r ≤ 7001 → contains r small.in_use ≡ true))
    × ((acquire small).1 ≡ refused exhausted → (acquire small).0 ≡ small)
acquire-exhausted_pool = acquire-exhausted small

in_use_count-le-capacity_pool :
    in_use_count (run (record { from = 7000; to = 7001; in_use = [] }) calls)
    ≤ capacity (run (record { from = 7000; to = 7001; in_use = [] }) calls)
in_use_count-le-capacity_pool = in_use_count-le-capacity (pos 7000) (pos 7001) _ calls new_small
