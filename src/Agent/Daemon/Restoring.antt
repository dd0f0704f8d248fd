-- ===== src/Agent/Daemon/Restoring.antt =====
-- `Restore`: a container that still runs takes its recorded port again.
use birdman.Base.{
  AllValues-insert, Bool, Bool-cases, String, arith, if◌then◌else◌, inl, inr, insert, lookup,
  nat_eq, none, refl, string_eq, subst, sym, true, ℕ, ◌+◌, ◌==◌, ◌≡◌,
}
use birdman.Agent.Ports.{Outcome, Pool, acquire_specific, granted, new, refused}
use birdman.Agent.Ports.Counting.{Takes, acquire_specific-Takes, uses}
use birdman.Agent.Ports.Ownership
use birdman.Agent.Lifecycle.{new_machine_at}
use birdman.Agent.Daemon.Server.{Server, new_server, supervised}
use birdman.Agent.Daemon.Manager.{
  Manager, RestoredServer, restore_dead, restore_one, restore_running, restored_state,
}
use birdman.Agent.Daemon.Phases.{IsFit, fits}
use birdman.Agent.Daemon.Ownership.{has_port, holds}
use birdman.Agent.Daemon.Invariant.{Inv, holders-insert_new}

Takes-granted :
    (p : Pool) (got : Pool × Outcome) (r : ℕ)
    → Takes p got
    → got.1 ≡ granted r
    → Ownership.Inv got.0
      × ((q : ℕ) → uses q got.0.in_use ≡ uses q p.in_use + (if r == q then 1 else 0))
Takes-granted p (p', granted s) r t h = let e : s ≡ r = cc in rw (← e) t
Takes-granted p (p', refused e) r t h = absurd (cc)

restored_fits : (label : String) → fits supervised (restored_state label) none ≡ true
unfolding fits restored_state
restored_fits label = ground arith

-- A restored server joins with the port that the pool grants it.
joined_with_port-Inv :
    (m : Manager) (id : String) (srv : Server) (p : Pool)
    → Inv m
    → lookup id m.servers ≡ none
    → (srv.phase ≡ supervised) × IsFit srv
    → Ownership.Inv p
    → ((q : ℕ) → uses q p.in_use ≡ uses q m.pool.in_use + (if srv.port == q then 1 else 0))
    → Inv (record m { pool = p; servers = insert id srv m.servers })
unfolding holds has_port
joined_with_port-Inv m id srv p v new (e, f) pv taken = record {
  pool = pv;
  counted = λ q.
      let more = holders-insert_new q id srv m.servers new in
      let old = v.counted q in
      let got = taken q in
      let one : holds q srv ≡ (if srv.port == q then 1 else 0) = rw (e, holds) refl in omega arith;
  fit = AllValues-insert IsFit id srv m.servers v.fit f;
}

-- One container of `Restore` keeps the ports in balance: a dead one takes none, and a running one
-- that is not listed yet takes its recorded port, if the pool grants it.
pub restore_one-Inv :
    (m : Manager) (r : RestoredServer) (listening : Bool)
    → Inv m
    → lookup r.id m.servers ≡ none
    → (r.running ≡ true → (acquire_specific m.pool r.port).1 ≡ granted r.port)
    → Inv (restore_one m r listening)
unfolding restore_one restore_dead restore_running new_server new_machine_at
restore_one-Inv m r listening v new grants = elim (Bool-cases r.running) [
  | inr dead ↦
      subst (λ b. Inv (if b then restore_running m r listening else restore_dead m r)) (sym dead)
        (record { pool = v.pool; counted = v.counted; fit = v.fit })
  | inl alive ↦
      let (pv, taken) =
        Takes-granted m.pool (acquire_specific m.pool r.port) r.port
          (acquire_specific-Takes m.pool r.port v.pool) (grants alive) in
      subst (λ b. Inv (if b then restore_running m r listening else restore_dead m r)) (sym alive)
        (joined_with_port-Inv m r.id _ _ v new (refl, restored_fits r.state) pv taken)
]
