-- ===== src/AgentLink/Hub/Runs.antt =====
-- A node that goes offline with a command unacknowledged, and comes back on an untrusted link.
use birdman.Base.{List, [], arith, false, length, none, refl, some, true, ℕ, ◌∷◌, ◌≡◌, ◌≤◌}
use birdman.AgentLink.Hub.{
  Cmd, Event, NodeQueue, Session, attach, detach, new_node_queue, out_cap, pending_at_attach, push,
  push_all, remove_set_registries, run, send, step, take_out, trusted_for_registries,
}
use birdman.AgentLink.Hub.Gate.{NoRegistries, registries_in}
use birdman.AgentLink.Hub.Secrecy.{run-new_node_queue_gated}
use birdman.AgentLink.Hub.Redelivery.{Waits, attach-replays, run-send-Waits}

abbrev start_server : Cmd ℕ
start_server = record { cmd_id = "c1"; registries = false; body = 1 }

abbrev secrets : Cmd ℕ
secrets = record { cmd_id = "c0"; registries = true; body = 0 }

abbrev events : List (Event ℕ)
events =
    Event.attaches 1 (some secrets) true false
    ∷ Event.takes
    ∷ Event.detaches 1
    ∷ Event.attaches 2 (some secrets) false false
    ∷ []

stripped : (run (send start_server new_node_queue).0 events).pending ≡ start_server ∷ []
unfolding run step send attach pending_at_attach push_all push detach take_out remove_set_registries
stripped = refl

run-new_node_queue_gated_example :
    let q = run new_node_queue (Event.sends start_server ∷ events) in
    ((s : Session ℕ)
      → q.sess ≡ some s
      → trusted_for_registries s ≡ false
      → NoRegistries q.pending × NoRegistries s.out × NoRegistries s.wire)
    × (registries_in q.pending ≤ 1)
run-new_node_queue_gated_example = run-new_node_queue_gated (Event.sends start_server ∷ events)

run-send-Waits_example :
    Waits start_server (run (send start_server new_node_queue).0 events).pending
run-send-Waits_example =
    run-send-Waits start_server new_node_queue events refl refl (refl, (refl, (refl, (refl, tt))))

abbrev parked : NodeQueue ℕ
parked = record { pending = secrets ∷ start_server ∷ []; sess = none }

abbrev new_secrets : Cmd ℕ
new_secrets = record { cmd_id = "c9"; registries = true; body = 9 }

short : length (attach 3 (some new_secrets) true false parked).pending ≤ out_cap
unfolding attach pending_at_attach remove_set_registries
short = omega arith

attach-replays_example :
    (s : Session ℕ) × ((attach 3 (some new_secrets) true false parked).sess ≡ some s)
    × (s.out ≡ (attach 3 (some new_secrets) true false parked).pending)
    × (s.out ≡ new_secrets ∷ start_server ∷ [])
    × ((m : Cmd ℕ) → m.registries ≡ false → Waits m parked.pending → Waits m s.out)
attach-replays_example = attach-replays 3 (some new_secrets) true false parked short
