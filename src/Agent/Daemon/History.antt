-- ===== src/Agent/Daemon/History.antt =====
-- What the master has been told after any sequence of steps, and what every server's machine is.
use birdman.Base.{
  AllValues, AllValues-insert, AllValues-keep_if, AllValues-lookup, Bool, Bool-cases, List,
  Option-cases, String, [], ap, arith, before, beq_refl, false, inl, inr, insert, keep_if, le-total,
  lookup, nat_eq, none, refl, some, string_eq, sym, total, total-insert_known, total-insert_new,
  true, ℕ, ◌++◌, ◌+◌, ◌<◌, ◌∙◌, ◌∷◌, ◌≡◌,
}
use birdman.Agent.Lifecycle.{Machine, Transition, allocated, new_machine, new_machine_at, ready}
use birdman.Agent.Lifecycle.Order
use birdman.Agent.Daemon.Server.{Effect, Server, StartServer, fail, touches}
use birdman.Agent.Daemon.Supervise.{Local, local}
use birdman.Agent.Daemon.Manager.{
  Event, Manager, admit, disk_detail, disk_event, drain, drains, is_current, is_evicted, is_expired,
  on, on_server, reject, run, snapshot, snapshots, start, starts, step, undrain, undrains,
}
use birdman.Agent.Daemon.Reports.{
  Kind, Truthful, Truthful-refl, fail-Truthful, is_kind, kind_name, logged, moves_to, tells_failed,
  tells_ready, told, told-append,
}
use birdman.Agent.Daemon.Told.{local-IsTruthful}

run-append :
    (m : Machine) (cs : List Order.Call) (c : Order.Call)
    → Order.run m (cs ++ c ∷ []) ≡ Order.step (Order.run m cs) c
unfolding Order.run
run-append m [] c = refl
run-append m (d ∷ cs) c = run-append (Order.step m d) cs c

-- The machine of a server is one that began at `pulling` and was moved by calls of `To` alone.
abbrev pub IsLifecycle : Server → Type 0
IsLifecycle srv = (cs : List Order.Call) × (srv.machine ≡ Order.run (new_machine srv.id) cs)

Truthful-IsLifecycle :
    (srv : Server) (out : Server × List Effect)
    → Truthful srv out
    → IsLifecycle srv
    → IsLifecycle out.0
Truthful-IsLifecycle srv out t (cs, e) = elim t.moved [
  | inl same ↦ (cs, rw t.same_id (same ∙ e))
  | inr (c, e') ↦ (
    cs ++ c ∷ [],
    rw t.same_id
        (e' ∙ ap (λ (z : Machine). Order.step z c) e ∙ sym (run-append (new_machine srv.id) cs c)),
  )
]

-- The account of the node: the `ready` and `failed` events that were sent for a name are the moves
-- to these states in the logs of the servers of that name, those in the map and those that
-- `Snapshot` evicted; and every machine is one of the life cycle.
pub record IsAccounted (m : Manager) : Type 0 where
  pub told_logged :
      (id : String) (k : Kind)
      → told id k m.effects ≡ total (logged id k) m.servers + total (logged id k) m.gone
  pub lifecycles : AllValues IsLifecycle m.servers

on_server-IsAccounted :
    (m : Manager) (id : String) (l : Local)
    → IsAccounted m
    → IsAccounted (on_server m id (λ p srv. local m.config.logs p srv l))
unfolding on_server
on_server-IsAccounted m id l a = elim (Option-cases (lookup id m.servers)) [
  | inl e ↦ rw (e, on_server) a
  | inr (srv, e) ↦
      let t = local-IsTruthful m.config.logs m.pool srv l in
      let out = local m.config.logs m.pool srv l in
      rw (e, on_server)
        (record {
          told_logged = λ i k.
              let before = a.told_logged i k in
              let sum = told-append i k m.effects out.2 in
              let step_told = t.truthful i k in
              let new = total-insert_known (logged i k) id srv out.1 m.servers e in omega arith;
          lifecycles = AllValues-insert IsLifecycle id out.1 m.servers a.lifecycles (
              Truthful-IsLifecycle srv (out.1, out.2) t
                (AllValues-lookup IsLifecycle id m.servers a.lifecycles e));
        })
]

-- A server that joins the map, with what was said of it.
joined-IsAccounted :
    (m : Manager) (srv : Server) (out : Server × List Effect) (es : List Effect)
    → IsAccounted m
    → lookup srv.id m.servers ≡ none
    → srv.machine ≡ new_machine srv.id
    → ((id : String) (k : Kind) → told id k es ≡ told id k out.1)
    → Truthful srv out
    → IsAccounted (record m { servers = insert srv.id out.0 m.servers; effects = m.effects ++ es })
unfolding logged moves_to Order.run new_machine new_machine_at
joined-IsAccounted m srv out es a new fresh same t = record {
  told_logged = λ id k.
      let acc = a.told_logged id k in
      let sum = told-append id k m.effects es in
      let said = t.truthful id k in
      let nothing : logged id k srv ≡ 0 = rw (fresh, logged) (ground arith) in
      let more = total-insert_new (logged id k) srv.id out.0 m.servers new in
      let equal = same id k in omega arith;
  lifecycles =
      AllValues-insert IsLifecycle srv.id out.0 m.servers a.lifecycles
        (Truthful-IsLifecycle srv out t ([], fresh));
}

reject-IsAccounted :
    (m : Manager) (srv : Server) (before : List Effect) (reason : String) (now : ℕ)
    → IsAccounted m
    → lookup srv.id m.servers ≡ none
    → srv.machine ≡ new_machine srv.id
    → ((id : String) (k : Kind) → told id k before ≡ 0)
    → IsAccounted (reject m srv before reason now)
unfolding reject
reject-IsAccounted m srv before reason now a new fresh silent =
    let out = fail srv reason now in
    joined-IsAccounted m srv out (before ++ out.1) a new fresh
      (λ id k. let sum = told-append id k before out.1 in let no_event = silent id k in omega arith)
      (fail-Truthful srv reason now)

told-disk_event : (id : String) (k : Kind) (i detail : String) → told id k (disk_event i detail) ≡ 0
unfolding told kind_name
told-disk_event id tells_ready i detail = ground arith
told-disk_event id tells_failed i detail = ground arith

admit-IsAccounted :
    (m : Manager) (srv : Server) (disk : ℕ × ℕ) (now : ℕ) (closed full : Bool)
    → IsAccounted m
    → lookup srv.id m.servers ≡ none
    → srv.machine ≡ new_machine srv.id
    → IsAccounted (admit m srv disk now closed full)
unfolding admit told
admit-IsAccounted m srv disk now true full a new fresh =
    reject-IsAccounted m srv [] _ now a new fresh (λ id k. refl)
admit-IsAccounted m srv disk now false true a new fresh =
    let detail = disk_detail m.config.disk_full_watermark_pct disk in
    reject-IsAccounted m srv (disk_event srv.id detail) _ now a new fresh
      (λ id k. told-disk_event id k srv.id detail)
admit-IsAccounted m srv disk now false false a new fresh =
    joined-IsAccounted m srv (srv, []) (touches srv.image_ref ∷ []) a new fresh (λ id k. refl)
      (Truthful-refl srv)

start-IsAccounted :
    (m : Manager) (cmd : StartServer) (disk : ℕ × ℕ) (now : ℕ)
    → IsAccounted m
    → IsAccounted (start m cmd disk now)
unfolding start new_machine
start-IsAccounted m cmd disk now a = elim (Bool-cases (string_eq.beq cmd.server_id "")) [
  | inl unnamed ↦ rw (unnamed, start) a
  | inr named ↦ elim (Option-cases (lookup cmd.server_id m.servers)) [
    | inr (srv, e) ↦ rw (named, e, start) a
    | inl e ↦ rw (named, e, start) (admit-IsAccounted m _ disk now m.draining _ a e refl)
  ]
]

total-append :
    (w : Server → ℕ) (xs ys : List (String × Server)) → total w (xs ++ ys) ≡ total w xs + total w ys
total-append w [] ys = omega arith
total-append w ((k, v) ∷ xs) ys = omega (arith, total-append w xs ys)

total-split :
    (w : Server → ℕ) (now : ℕ) (m : List (String × Server))
    → total w (keep_if (is_current now) m) + total w (keep_if (is_evicted now) m) ≡ total w m
total-split w now [] = omega arith
total-split w now ((k, v) ∷ m) = elim (Bool-cases (is_expired now v)) [
  | inl gone ↦ rw gone (omega (arith, total-split w now m))
  | inr kept ↦ rw kept (omega (arith, total-split w now m))
]

snapshot-IsAccounted : (m : Manager) (now : ℕ) → IsAccounted m → IsAccounted (snapshot m now).0
unfolding snapshot
snapshot-IsAccounted m now a = record {
  told_logged = λ id k.
      let acc = a.told_logged id k in
      let split = total-split (logged id k) now m.servers in
      let sum = total-append (logged id k) (keep_if (is_evicted now) m.servers) m.gone in
      omega arith;
  lifecycles = AllValues-keep_if IsLifecycle (is_current now) m.servers a.lifecycles;
}

step-IsAccounted : (m : Manager) (e : Event) → IsAccounted m → IsAccounted (step m e)
unfolding step drain undrain
step-IsAccounted m (starts cmd disk now) a = start-IsAccounted m cmd disk now a
step-IsAccounted m (on id l) a = on_server-IsAccounted m id l a
step-IsAccounted m drains a = record { told_logged = a.told_logged; lifecycles = a.lifecycles }
step-IsAccounted m undrains a = record { told_logged = a.told_logged; lifecycles = a.lifecycles }
step-IsAccounted m (snapshots now) a = snapshot-IsAccounted m now a

-- Whatever steps a node takes from a state with this account, such as a new manager, it still has
-- it: the master is told of every move of a server to `ready` or `failed` exactly once and of no
-- other, and every server in the map has gone through calls of `To` from `pulling` alone.
pub run-IsAccounted : (m : Manager) (es : List Event) → IsAccounted m → IsAccounted (run m es)
unfolding run
run-IsAccounted m [] a = a
run-IsAccounted m (e ∷ es) a = run-IsAccounted (step m e) es (step-IsAccounted m e a)

Reached-moves : (log : List Transition) → Order.Reached ready log → 0 < moves_to tells_ready log
unfolding moves_to is_kind
Reached-moves [] r = elim r [ ]
Reached-moves (tr ∷ log) (inl e) = rw e (omega arith)
Reached-moves (tr ∷ log) (inr r) = omega (arith, Reached-moves log r)

-- A server that is allocated, after any steps from a state with this account, has told the master
-- that it is ready.
pub allocated_told_ready :
    (m : Manager) (es : List Event) (id : String) (srv : Server)
    → IsAccounted m
    → lookup id (run m es).servers ≡ some srv
    → srv.machine.cur ≡ allocated
    → 0 < told srv.id tells_ready (run m es).effects
unfolding logged
allocated_told_ready m es id srv a found h =
    let a' = run-IsAccounted m es a in
    let (cs, e) = AllValues-lookup IsLifecycle id (run m es).servers a'.lifecycles found in
    let was = Order.allocated_was_ready srv.id cs (ap (λ (z : Machine). z.cur) (sym e) ∙ h) in
    let moved : 0 < moves_to tells_ready srv.machine.log = rw e (Reached-moves _ was) in
    let listed = le-total (logged srv.id tells_ready) id srv (run m es).servers found in
    let said = a'.told_logged srv.id tells_ready in let self = beq_refl srv.id in ground arith
