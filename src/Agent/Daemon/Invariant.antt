-- ===== src/Agent/Daemon/Invariant.antt =====
-- What holds of the manager after any sequence of its steps: the ports in use are those of its
-- servers.
use birdman.Base.{
  All, AllValues, AllValues-insert, AllValues-keep_if, AllValues-lookup, Bool, Bool-cases, List,
  Option-cases, String, [], ap, arith, before, contains, false, inl, inr, insert, keep_if, lookup,
  nat_eq, negsuc, none, pos, refl, some, some_eq, string_eq, subst, sym, true, ℕ, ℤ, ◌+◌, ◌<◌, ◌∙◌,
  ◌∷◌, ◌≡◌, ◌≤◌,
}
use birdman.Agent.Ports
use birdman.Agent.Ports.Ownership.{new-Inv}
use birdman.Agent.Ports.Counting.{uses}
use birdman.Agent.Ports.Ownership
use birdman.Agent.Daemon.Server.{Effect, Server, StartServer, fail}
use birdman.Agent.Daemon.Supervise.{Local, local}
use birdman.Agent.Daemon.Manager.{
  Config, Event, Manager, admit, disk_detail, disk_event, drain, drains, is_current, is_expired,
  new_manager, on, on_server, reject, run, snapshot, snapshots, start, starts, step, undrain,
  undrains,
}
use birdman.Agent.Daemon.Phases.{IsFit, fits}
use birdman.Agent.Lifecycle.{is_terminal, new_machine_at, pulling, to}
use birdman.Agent.Daemon.Balance.{local-Kept}
use birdman.Agent.Daemon.Ownership.{IsOwned, fail_lem, has_port, holds}

-- How many entries of the map hold the port `q`.
unfoldable pub holders : ℕ → List (String × Server) → ℕ
holders q [] = 0
holders q ((id, srv) ∷ m) = holds q srv + holders q m

pub record Inv (m : Manager) : Type 0 where
  pub pool : Ownership.Inv m.pool
  pub counted : (q : ℕ) → uses q m.pool.in_use ≡ holders q m.servers
  pub fit : AllValues IsFit m.servers

holders-insert_known :
    (q : ℕ) (id : String) (srv srv' : Server) (m : List (String × Server))
    → lookup id m ≡ some srv
    → holders q (insert id srv' m) + holds q srv ≡ holders q m + holds q srv'
unfolding holders
holders-insert_known q id srv srv' [] h = cc
holders-insert_known q id srv srv' ((j, s) ∷ m) h = elim (Bool-cases (string_eq.beq j id)) [
  | inl same ↦ let e : s ≡ srv = some_eq (rw same at h) in rw same (rw e (omega arith))
  | inr other ↦ rw other (omega (arith, holders-insert_known q id srv srv' m (rw other at h)))
]

pub holders-insert_new :
    (q : ℕ) (id : String) (srv : Server) (m : List (String × Server))
    → lookup id m ≡ none
    → holders q (insert id srv m) ≡ holders q m + holds q srv
unfolding holders
holders-insert_new q id srv [] h = omega arith
holders-insert_new q id srv ((j, s) ∷ m) h = elim (Bool-cases (string_eq.beq j id)) [
  | inl same ↦ absurd (let e = rw same at h in cc)
  | inr other ↦ rw other (omega (arith, holders-insert_new q id srv m (rw other at h)))
]

holders-keep_if :
    (q : ℕ) (p : String × Server → Bool) (m : List (String × Server))
    → All (λ (e : String × Server). p e ≡ false → holds q e.1 ≡ 0) m
    → holders q (keep_if p m) ≡ holders q m
unfolding holders
holders-keep_if q p [] h = refl
holders-keep_if q p ((id, srv) ∷ m) h = elim (Bool-cases (p (id, srv))) [
  | inl kept ↦ rw kept (omega (arith, holders-keep_if q p m h.1))
  | inr gone ↦ rw gone (omega (arith, holders-keep_if q p m h.1, h.0 gone))
]

pub holds-le-holders :
    (q : ℕ) (id : String) (srv : Server) (m : List (String × Server))
    → lookup id m ≡ some srv
    → holds q srv ≤ holders q m
unfolding holders
holds-le-holders q id srv [] h = absurd (cc)
holds-le-holders q id srv ((j, s) ∷ m) h = elim (Bool-cases (string_eq.beq j id)) [
  | inl same ↦ let e : s ≡ srv = some_eq (rw same at h) in rw e (omega arith)
  | inr other ↦ omega (arith, holds-le-holders q id srv m (rw other at h))
]

pub contains_of_uses : (q : ℕ) (ps : List ℕ) → 0 < uses q ps → contains q ps ≡ true
unfolding uses
contains_of_uses q [] h = absurd (omega arith)
contains_of_uses q (p ∷ ps) h = ground (arith, contains_of_uses q ps)

pub Inv-IsOwned :
    (m : Manager) (id : String) (srv : Server)
    → Inv m
    → lookup id m.servers ≡ some srv
    → IsOwned m.pool srv
unfolding holds
Inv-IsOwned m id srv v found held =
    let below = holds-le-holders srv.port id srv m.servers found in
    let counted = v.counted srv.port in contains_of_uses srv.port m.pool.in_use (ground arith)

on_server-Inv :
    (m : Manager) (id : String) (l : Local)
    → Inv m
    → Inv (on_server m id (λ p srv. local m.config.logs p srv l))
unfolding on_server
on_server-Inv m id l v = elim (Option-cases (lookup id m.servers)) [
  | inl e ↦ rw (e, on_server) v
  | inr (srv, e) ↦
      let kept =
        local-Kept m.config.logs m.pool srv l v.pool (AllValues-lookup IsFit id m.servers v.fit e)
          (Inv-IsOwned m id srv v e) in
      rw (e, on_server)
        (record {
          pool = kept.pool;
          counted = λ q.
              let new =
                holders-insert_known q id srv (local m.config.logs m.pool srv l).1 m.servers e in
              let old = v.counted q in let balance = kept.balanced q in omega arith;
          fit = AllValues-insert IsFit id _ m.servers v.fit kept.fit;
        })
]

-- A server that joins the map without a port.
joined-Inv :
    (m : Manager) (id : String) (srv : Server) (es : List Effect)
    → Inv m
    → lookup id m.servers ≡ none
    → has_port srv.phase ≡ false
    → IsFit srv
    → Inv (record m { servers = insert id srv m.servers; effects = es })
unfolding holds
joined-Inv m id srv es v new h f = record {
  pool = v.pool;
  counted = λ q.
      let more = holders-insert_new q id srv m.servers new in let old = v.counted q in ground arith;
  fit = AllValues-insert IsFit id srv m.servers v.fit f;
}

reject-Inv :
    (m : Manager) (srv : Server) (before : List Effect) (reason : String) (now : ℕ)
    → Inv m
    → lookup srv.id m.servers ≡ none
    → srv.machine.cur ≡ pulling
    → Inv (reject m srv before reason now)
unfolding reject has_port is_terminal
reject-Inv m srv before reason now v new pulls =
    let (at_end, fit) = fail_lem srv reason now (rw pulls refl) in
    joined-Inv m srv.id (fail srv reason now).0 _ v new (ap has_port at_end) fit

admit-Inv :
    (m : Manager) (srv : Server) (disk : ℕ × ℕ) (now : ℕ) (closed full : Bool)
    → Inv m
    → lookup srv.id m.servers ≡ none
    → (srv.machine.cur ≡ pulling) × (has_port srv.phase ≡ false) × IsFit srv
    → Inv (admit m srv disk now closed full)
unfolding admit
admit-Inv m srv disk now true full v new (pulls, h, f) = reject-Inv m srv [] _ now v new pulls
admit-Inv m srv disk now false true v new (pulls, h, f) =
    reject-Inv m srv (disk_event srv.id (disk_detail m.config.disk_full_watermark_pct disk)) _ now v
      new pulls
admit-Inv m srv disk now false false v new (pulls, h, f) = joined-Inv m srv.id srv _ v new h f

start-Inv :
    (m : Manager) (cmd : StartServer) (disk : ℕ × ℕ) (now : ℕ) → Inv m → Inv (start m cmd disk now)
unfolding start has_port fits new_machine_at
start-Inv m cmd disk now v = elim (Bool-cases (string_eq.beq cmd.server_id "")) [
  | inl unnamed ↦ rw (unnamed, start) v
  | inr named ↦ elim (Option-cases (lookup cmd.server_id m.servers)) [
    | inr (srv, e) ↦ rw (named, e, start) v
    | inl e ↦ rw (named, e, start) (admit-Inv m _ disk now m.draining _ v e (refl, refl, refl))
  ]
]

expired_holds :
    (now q : ℕ) (m : List (String × Server))
    → AllValues IsFit m
    → All (λ (e : String × Server). is_current now e ≡ false → holds q e.1 ≡ 0) m
unfolding is_expired holds has_port fits
expired_holds now q [] h = tt
expired_holds now q ((id, srv) ∷ m) h = ((λ gone. ground (arith, h.0)), expired_holds now q m h.1)

snapshot-Inv : (m : Manager) (now : ℕ) → Inv m → Inv (snapshot m now).0
unfolding snapshot
snapshot-Inv m now v = record {
  pool = v.pool;
  counted = λ q.
      v.counted q
      ∙ sym (holders-keep_if q (is_current now) m.servers (expired_holds now q m.servers v.fit));
  fit = AllValues-keep_if IsFit (is_current now) m.servers v.fit;
}

step-Inv : (m : Manager) (e : Event) → Inv m → Inv (step m e)
unfolding step drain undrain
step-Inv m (starts cmd disk now) v = start-Inv m cmd disk now v
step-Inv m (on id l) v = on_server-Inv m id l v
step-Inv m drains v = record { pool = v.pool; counted = v.counted; fit = v.fit }
step-Inv m undrains v = record { pool = v.pool; counted = v.counted; fit = v.fit }
step-Inv m (snapshots now) v = snapshot-Inv m now v

pub run-Inv : (m : Manager) (es : List Event) → Inv m → Inv (run m es)
unfolding run
run-Inv m [] v = v
run-Inv m (e ∷ es) v = run-Inv (step m e) es (step-Inv m e v)

new_in_use : (from to : ℤ) {p : Ports.Pool} → Ports.new from to ≡ some p → p.in_use ≡ []
unfolding Ports.new
new_in_use (pos from) (pos to) h = ground arith
new_in_use (pos from) (negsuc to) h = cc
new_in_use (negsuc from) to h = cc

pub new_manager-Inv :
    (config : Config) (from to : ℤ) {m : Manager} → new_manager config from to ≡ some m → Inv m
unfolding new_manager holders uses
new_manager-Inv config from to {m} h = elim (Option-cases (Ports.new from to)) [
  | inl e ↦ absurd (let k = rw (e, new_manager) at h in cc)
  | inr (p, e) ↦
      subst Inv (some_eq (rw (e, new_manager) at h)) (record {
        pool = new-Inv from to e;
        counted = λ q. rw (new_in_use from to e) refl;
        fit = tt;
      })
]
