-- ===== src/Agent/Daemon/Ownership.antt =====
-- Who holds the ports of a node: the servers whose goroutine stands between taking its port and
-- giving it back.
use birdman.Base.{
  Bool, Bool-cases, List, Option, String, [], arith, concat, contains, false, if◌then◌else◌, inl,
  inr, ltb, nat_eq, none, refl, some, string_eq, subst, sym, true, ℕ, ◌&&◌, ◌+◌, ◌==◌, ◌∷◌, ◌≡◌,
  ◌≢◌,
}
use birdman.Agent.Ports.{Outcome, Pool, granted, refused, release}
use birdman.Agent.Ports.Ownership
use birdman.Agent.Ports.Counting.{
  All_contains, Takes, acquire-Takes, acquire_specific-Takes, release-uses, uses,
}
use birdman.Agent.Ports.Ownership.{Inv, release-Inv}
use birdman.Agent.Lifecycle.{State, failed, is_terminal, next, pulling, starting}
use birdman.Agent.Daemon.Server.{
  Effect, Phase, Server, fail, opens_socket, over, port_error, runs_container, supervised,
  takes_port, transition,
}
use birdman.Agent.Daemon.Supervise.{
  Exit, LogConfig, Moved, finish, open_socket, run_container, take_port, with_pool, with_port,
}
use birdman.Agent.Daemon.Phases.{
  IsFit, Tame, Tame-IsFit, ends, fits, settle_terminal, to-cur, transition_lem,
}

unfoldable pub has_port : Phase → Bool
has_port takes_port = false
has_port over = false
has_port _ = true

-- 1 for a server that holds the port `q`.
unfoldable pub holds : ℕ → Server → ℕ
unfolding has_port
holds q srv = if has_port srv.phase && srv.port == q then 1 else 0

-- What a step of one server keeps: the pool's invariant, the balance of every port between the pool
-- and the server, and the place of its goroutine.
pub record Kept (p : Pool) (srv : Server) (out : Moved) : Type 0 where
  pub pool : Ownership.Inv out.0
  pub balanced : (q : ℕ) → uses q out.0.in_use + holds q srv ≡ uses q p.in_use + holds q out.1
  pub fit : IsFit out.1

abbrev pub IsOwned : Pool → Server → Type 0
IsOwned p srv = has_port srv.phase ≡ true → contains srv.port p.in_use ≡ true

-- A step that leaves the goroutine and the pool as they are.
pub Tame-Kept :
    (p : Pool) (srv srv' : Server) (es : List Effect)
    → Ownership.Inv p
    → IsFit srv
    → Tame srv srv'
    → Kept p srv (p, srv', es)
unfolding holds
Tame-Kept p srv srv' es v h t = record {
  pool = v;
  balanced = λ q. rw t.phase (rw t.port refl);
  fit = Tame-IsFit srv srv' t h;
}

-- The end of a server: its port, if it had one, is given back.
over-Kept :
    (p : Pool) (srv srv' : Server) (es : List Effect)
    → Ownership.Inv p
    → IsOwned p srv
    → has_port srv.phase ≡ true
    → srv'.phase ≡ over
    → IsFit srv'
    → Kept p srv ((release p srv.port).0, srv', es)
unfolding holds has_port
over-Kept p srv srv' es v o h e f = record {
  pool = release-Inv p srv.port v;
  balanced = λ q. ground (arith, release-uses p srv.port q v (o h));
  fit = f;
}

launching_live :
    (ph : Phase) (s : State) (d : Option ℕ)
    → fits ph s d ≡ true
    → ph ≢ supervised
    → ph ≢ over
    → s ≡ pulling
unfolding fits
launching_live ph s d h k l = ground arith

launching_unended :
    (ph : Phase) (s : State) (d : Option ℕ) → fits ph s d ≡ true → ph ≢ over → d ≡ none
unfolding fits
launching_unended ph s d h l = ground arith

port_pos :
    (p : Pool) (port : ℕ) → Ownership.Inv p → contains port p.in_use ≡ true → ltb 0 port ≡ true
port_pos p port v h =
    let range = v.valid in let within = All_contains _ port p.in_use v.within h in ground arith

pub fail_lem :
    (srv : Server) (reason : String) (now : ℕ)
    → is_terminal srv.machine.cur ≡ false
    → ((fail srv reason now).0.phase ≡ over) × IsFit (fail srv reason now).0
unfolding fail fits is_terminal
fail_lem srv reason now h = (refl, rw (ends srv failed reason now h refl) refl)

-- A failed launch before the port was taken, and after.
fail_early-Kept :
    (p : Pool) (srv : Server) (reason : String) (now : ℕ)
    → Ownership.Inv p
    → IsFit srv
    → srv.phase ≡ takes_port
    → Kept p srv (with_pool p (fail srv reason now))
unfolding holds has_port is_terminal
fail_early-Kept p srv reason now v f e =
    let pulls = launching_live srv.phase srv.machine.cur srv.done_at f (λ k. cc) (λ k. cc) in
    let (at_end, fit) = fail_lem srv reason now (rw pulls refl) in
    record { pool = v; balanced = λ q. ground (arith, e); fit = fit }

with_port-Kept :
    (p : Pool) (srv : Server) (got : Pool × Outcome) (now : ℕ)
    → Ownership.Inv p
    → IsFit srv
    → srv.phase ≡ takes_port
    → Takes p got
    → Kept p srv (with_port p srv got now)
unfolding with_port fits has_port holds
with_port-Kept p srv (p', granted r) now v f e (v', t) = record {
  pool = v';
  balanced = λ q. rw e (ground (arith, t q));
  fit = rw e at f;
}
with_port-Kept p srv (p', refused x) now v f e same =
    subst
      (λ p'. Kept p srv (
        with_pool p'
          (fail srv (concat ("no host port: " ∷ port_error p srv.cmd.wanted_port x ∷ [])) now)))
      (sym same) (fail_early-Kept p srv _ now v f e)

pub take_port-Kept :
    (p : Pool) (srv : Server) (now : ℕ)
    → Ownership.Inv p
    → IsFit srv
    → srv.phase ≡ takes_port
    → Kept p srv (take_port p srv now)
unfolding take_port
take_port-Kept p srv now v f e = elim (Bool-cases (ltb 0 srv.cmd.wanted_port)) [
  | inl named ↦
      rw (named, take_port)
        (with_port-Kept p srv _ now v f e (acquire_specific-Takes p srv.cmd.wanted_port v))
  | inr any ↦ rw (any, take_port) (with_port-Kept p srv _ now v f e (acquire-Takes p v))
]

-- A failed launch that gives its port back. `srv'` is the server as it is failed.
fail_late-Kept :
    (p : Pool) (srv srv' : Server) (reason : String) (now : ℕ)
    → Ownership.Inv p
    → IsOwned p srv
    → has_port srv.phase ≡ true
    → srv'.machine.cur ≡ pulling
    → Kept p srv (with_pool (release p srv.port).0 (fail srv' reason now))
unfolding is_terminal
fail_late-Kept p srv srv' reason now v o h pulls =
    let (at_end, fit) = fail_lem srv' reason now (rw pulls refl) in
    over-Kept p srv (fail srv' reason now).0 (fail srv' reason now).1 v o h at_end fit

pub open_socket-Kept :
    (p : Pool) (srv : Server) (err : Option String) (now : ℕ)
    → Ownership.Inv p
    → IsFit srv
    → IsOwned p srv
    → srv.phase ≡ opens_socket
    → Kept p srv (open_socket p srv err now)
unfolding open_socket holds has_port fits
open_socket-Kept p srv none now v f o e = record {
  pool = v;
  balanced = λ q. rw e refl;
  fit = rw e at f;
}
open_socket-Kept p srv (some err) now v f o e =
    let pulls = launching_live srv.phase srv.machine.cur srv.done_at f (λ k. cc) (λ k. cc) in
    fail_late-Kept p srv srv _ now v o (rw e refl) pulls

begun-Kept :
    (p : Pool) (srv srv' : Server) (now : ℕ)
    → Ownership.Inv p
    → has_port srv.phase ≡ true
    → srv'.machine.cur ≡ pulling
    → (srv'.phase ≡ supervised) × (srv'.port ≡ srv.port) × (srv'.done_at ≡ none)
    → Kept p srv (with_pool p (transition srv' starting "container started" now))
unfolding holds has_port fits next
begun-Kept p srv srv' now v h pulls (at_loop, same, unended) =
    let moved = transition_lem srv' starting "container started" now in
    let there = to-cur srv'.machine starting "container started" now in
    record { pool = v; balanced = λ q. ground arith; fit = ground arith }

pub run_container-Kept :
    (cfg : LogConfig) (p : Pool) (srv : Server) (mkdir_ok : Bool) (err : Option String) (now : ℕ)
    → Ownership.Inv p
    → IsFit srv
    → IsOwned p srv
    → srv.phase ≡ runs_container
    → Kept p srv (run_container cfg p srv mkdir_ok err now)
unfolding run_container holds has_port fits
run_container-Kept cfg p srv mkdir_ok (some err) now v f o e =
    let pulls = launching_live srv.phase srv.machine.cur srv.done_at f (λ k. cc) (λ k. cc) in
    fail_late-Kept p srv _ _ now v o (rw e refl) pulls
run_container-Kept cfg p srv mkdir_ok none now v f o e =
    let pulls = launching_live srv.phase srv.machine.cur srv.done_at f (λ k. cc) (λ k. cc) in
    begun-Kept p srv _ now v (rw e refl) pulls
      (refl, refl, launching_unended srv.phase srv.machine.cur srv.done_at f (λ k. cc))

pub finish-Kept :
    (p : Pool) (srv : Server) (exit : Exit) (now : ℕ)
    → Ownership.Inv p
    → IsFit srv
    → IsOwned p srv
    → srv.phase ≡ supervised
    → Kept p srv (finish p srv exit now)
unfolding finish has_port fits
finish-Kept p srv exit now v f o e =
    let held : has_port srv.phase ≡ true = rw e refl in
    rw (port_pos p srv.port v (o held), finish)
      (over-Kept p srv _ _ v o held refl (settle_terminal srv exit now))
