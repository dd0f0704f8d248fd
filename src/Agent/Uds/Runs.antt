-- ===== src/Agent/Uds/Runs.antt =====
-- The socket at concrete inputs.
use birdman.Base.{List, [], false, none, pos, refl, some, true, ◌∷◌, ◌≡◌}
use birdman.Agent.Uds.{
  Allocation, Server, Step, accepts, allocated_frame, allocates, hangs_up, listen, replays, run,
  writes,
}
use birdman.Agent.Uds.Roster.{Newest, requests, run-Newest, stale_replay_overtakes}

abbrev two : Allocation
two = record { match_id = "m"; players_expected = pos 2; metadata = [] }

abbrev three : Allocation
three = record { match_id = "m"; players_expected = pos 3; metadata = [] }

abbrev holding : Server
holding = record {
  conn = none;
  last_allocated = some two;
  last_drain = some (pos 30, "reap");
  last_heard = none;
  closed = false;
  replay_to = 0;
  replay = [];
  sends = [];
  wire = [];
}

abbrev delayed : List Step
delayed =
    accepts 1 5 ∷ replays true ∷ allocates three ∷ hangs_up 1 ∷ writes 0 false ∷ allocates two ∷ []

delayed_retry : (run holding delayed).last_allocated ≡ some three
unfolding run
delayed_retry = refl

run-Newest_example : Newest two (requests delayed) (run holding delayed)
unfolding requests
run-Newest_example = run-Newest "m" holding two delayed refl refl (refl, (refl, tt))

abbrev raced : Server
raced =
    run listen (allocates two ∷ accepts 1 5 ∷ allocates three ∷ writes 0 true ∷ replays true ∷ [])

stale_replay_overtakes_node :
    (raced.wire ≡ (1, allocated_frame two) ∷ (1, allocated_frame three) ∷ [])
    × (raced.last_allocated ≡ some three)
stale_replay_overtakes_node = stale_replay_overtakes two three 1 5 refl refl
