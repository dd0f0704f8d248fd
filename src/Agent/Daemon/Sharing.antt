-- ===== src/Agent/Daemon/Sharing.antt =====
-- What the balance of the ports means for the servers of a node.
use birdman.Base.{
  AllValues, AllValues-lookup, Bool, Bool-cases, List, Option, String, [], arith, contains, false,
  inl, inr, lookup, ltb, ltb→lt, nat_eq, none, refl, some, some_eq, string_eq, sym, true, ℕ, ◌+◌,
  ◌<◌, ◌∙◌, ◌∷◌, ◌≡◌, ◌≢◌, ◌≤◌, ◌⊎◌,
}
use birdman.Agent.Ports.Counting.{uses-IsDistinct}
use birdman.Agent.Lifecycle.{State, allocated, draining, is_terminal, ready, starting}
use birdman.Agent.Daemon.Server.{Phase, Server}
use birdman.Agent.Daemon.Manager.{Event, Manager, run}
use birdman.Agent.Daemon.Phases.{IsFit, fits}
use birdman.Agent.Daemon.Ownership.{has_port, holds}
use birdman.Agent.Daemon.Invariant.{Inv, holders, holds-le-holders, run-Inv}

-- The container of such a server runs.
abbrev pub is_up : State → Bool
is_up starting = true
is_up ready = true
is_up allocated = true
is_up draining = true
is_up _ = false

up_phase :
    (ph : Phase) (s : State) (d : Option ℕ)
    → fits ph s d ≡ true
    → is_up s ≡ true
    → has_port ph ≡ true
unfolding has_port fits is_terminal
up_phase ph s d h u = ground arith

up_holds : (srv : Server) → IsFit srv → is_up srv.machine.cur ≡ true → holds srv.port srv ≡ 1
unfolding holds
up_holds srv f u = rw (up_phase srv.phase srv.machine.cur srv.done_at f u) (ground arith)

-- Two entries of the map.
holds_two :
    (q : ℕ) (i j : String) (s t : Server) (m : List (String × Server))
    → i ≢ j
    → lookup i m ≡ some s
    → lookup j m ≡ some t
    → holds q s + holds q t ≤ holders q m
unfolding holders
holds_two q i j s t [] ne hi hj = absurd (cc)
holds_two q i j s t ((k, v) ∷ m) ne hi hj = elim (Bool-cases (string_eq.beq k i)) [
  | inl first ↦ elim (Bool-cases (string_eq.beq k j)) [
    | inl second ↦
        absurd (ne (sym ((string_eq.beq_iff k i).0 first) ∙ (string_eq.beq_iff k j).0 second))
    | inr later ↦
        let e : v ≡ s = some_eq (rw first at hi) in
        let rest = holds-le-holders q j t m (rw later at hj) in rw e (omega arith)
  ]
  | inr later ↦ elim (Bool-cases (string_eq.beq k j)) [
    | inl second ↦
        let e : v ≡ t = some_eq (rw second at hj) in
        let rest = holds-le-holders q i s m (rw later at hi) in rw e (omega arith)
    | inr beyond ↦ omega (arith, holds_two q i j s t m ne (rw later at hi) (rw beyond at hj))
  ]
]

-- At most one server holds a port.
holders-le-one : (m : Manager) (q : ℕ) → Inv m → holders q m.servers ≤ 1
holders-le-one m q v =
    let counted = v.counted q in
    let once = uses-IsDistinct q m.pool.in_use v.pool.distinct in ground arith

-- Whatever steps a node takes from a state in which its ports and servers are in balance, as they
-- are on a new manager, two of its servers whose containers run never have the same port.
pub ports_exclusive :
    (m : Manager) (es : List Event) (i j : String) (s t : Server)
    → Inv m
    → i ≢ j
    → (lookup i (run m es).servers ≡ some s) × (is_up s.machine.cur ≡ true)
    → (lookup j (run m es).servers ≡ some t) × (is_up t.machine.cur ≡ true)
    → s.port ≢ t.port
ports_exclusive m es i j s t v ne (hi, us) (hj, ut) same =
    let v' = run-Inv m es v in
    let fit = AllValues-lookup IsFit i (run m es).servers v'.fit hi in
    let fit' = AllValues-lookup IsFit j (run m es).servers v'.fit hj in
    let one = up_holds s fit us in
    let other : holds s.port t ≡ 1 = rw same (up_holds t fit' ut) in
    let both = holds_two s.port i j s t (run m es).servers ne hi hj in
    let most = holders-le-one (run m es) s.port v' in absurd (omega arith)

-- Some server of the map was given the port `q` and has not ended.
abbrev pub IsHeld : ℕ → List (String × Server) → Type 0
IsHeld q [] = ⊥
IsHeld q ((id, srv) ∷ m) = ((srv.port ≡ q) × (srv.done_at ≡ none)) ⊎ IsHeld q m

holds-unended :
    (q : ℕ) (srv : Server) → IsFit srv → 0 < holds q srv → (srv.port ≡ q) × (srv.done_at ≡ none)
unfolding holds has_port fits
holds-unended q srv f h = ground arith

holder : (q : ℕ) (m : List (String × Server)) → 0 < holders q m → AllValues IsFit m → IsHeld q m
unfolding holders
holder q [] h f = absurd (omega arith)
holder q ((id, srv) ∷ m) h f = elim (Bool-cases (ltb 0 (holds q srv))) [
  | inl held ↦ inl (holds-unended q srv f.0 (ltb→lt _ _ held))
  | inr free ↦ inr (holder q m (ground arith) f.1)
]

-- Whatever steps a node takes from such a state, every port that is in use belongs to a server of
-- its map that has not ended: no port is lost by a failed start or by an exit.
pub port_has_owner :
    (m : Manager) (es : List Event) (q : ℕ)
    → Inv m
    → contains q (run m es).pool.in_use ≡ true
    → IsHeld q (run m es).servers
port_has_owner m es q v h =
    let v' = run-Inv m es v in
    let counted = v'.counted q in
    let once = uses-IsDistinct q (run m es).pool.in_use v'.pool.distinct in
    holder q (run m es).servers (ground arith) v'.fit

abbrev pub IsDone : Server → Type 0
IsDone srv = srv.done_at ≢ none

done_not_held : (q : ℕ) (m : List (String × Server)) → AllValues IsDone m → IsHeld q m → ⊥
done_not_held q [] d h = elim h [ ]
done_not_held q ((id, srv) ∷ m) d (inl (p, e)) = d.0 e
done_not_held q ((id, srv) ∷ m) d (inr h) = done_not_held q m d.1 h

-- When all its servers have ended, whether their tombstones are still there or not, all the ports
-- of the node are free again.
pub all_done_frees_ports :
    (m : Manager) (es : List Event)
    → Inv m
    → AllValues IsDone (run m es).servers
    → (run m es).pool.in_use ≡ []
all_done_frees_ports m es v d = empty (run m es).pool.in_use (λ q h. port_has_owner m es q v h)
  where
    empty : (ps : List ℕ) → ((q : ℕ) → contains q ps ≡ true → IsHeld q (run m es).servers) → ps ≡ []
    empty [] h = refl
    empty (p ∷ ps) h = absurd (done_not_held p (run m es).servers d (h p (ground arith)))
