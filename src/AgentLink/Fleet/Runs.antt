-- ===== src/AgentLink/Fleet/Runs.antt =====
-- Two nodes, one of them offline with a command that waits.
use birdman.Base.{List, String, [], false, none, refl, some, true, ℕ, ◌∷◌, ◌≡◌}
use birdman.AgentLink.Hub.{NodeQueue, new_session}
use birdman.AgentLink.Fleet.{has_session, pending_count, pending_counts}

abbrev queues : List (String × NodeQueue ℕ)
queues =
    ("n1", record { pending = []; sess = some (new_session 1 true false) })
    ∷ (
      "n2",
      record { pending = record { cmd_id = "c1"; registries = false; body = 1 } ∷ []; sess = none },
    )
    ∷ []

counts : pending_counts queues ≡ ("n2", 1) ∷ []
unfolding pending_counts
counts = refl

offline_waits : (pending_count "n2" queues ≡ 1) × (has_session "n2" queues ≡ false)
unfolding pending_count has_session
offline_waits = (refl, refl)
