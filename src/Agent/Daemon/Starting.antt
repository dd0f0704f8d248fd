-- ===== src/Agent/Daemon/Starting.antt =====
-- What `Start` does on each of its branches.
use birdman.Base.{
  Bool, Bool-cases, List, Option-cases, String, [], ap, arith, before, beq_refl, false, inl, inr,
  insert, lookup, lookup-insert, nat_eq, none, refl, some, string_eq, subst, sym, total, true, ℕ,
  ◌<◌, ◌∙◌, ◌≡◌, ◌≢◌,
}
use birdman.Agent.Lifecycle.{State, failed, new_machine_at, next, pulling, to}
use birdman.Agent.Daemon.Server.{
  Effect, Server, StartServer, fail, new_server, takes_port, transition,
}
use birdman.Agent.Daemon.Manager.{
  Manager, admit, disk_detail, disk_event, is_disk_full, reject, start,
}

lookup-insert_self :
    (k : String) (v : Server) (m : List (String × Server)) → lookup k (insert k v m) ≡ some v
lookup-insert_self k v m = rw (lookup-insert k k v m) (rw (beq_refl k) refl)

admit-known :
    (m : Manager) (srv : Server) (disk : ℕ × ℕ) (now : ℕ) (closed full : Bool)
    → (known : Server) × (lookup srv.id (admit m srv disk now closed full).servers ≡ some known)
unfolding admit reject
admit-known m srv disk now true full = (_, lookup-insert_self srv.id _ m.servers)
admit-known m srv disk now false true = (_, lookup-insert_self srv.id _ m.servers)
admit-known m srv disk now false false = (_, lookup-insert_self srv.id _ m.servers)

start_known :
    (m : Manager) (cmd : StartServer) (disk : ℕ × ℕ) (now : ℕ) (srv : Server)
    → lookup cmd.server_id m.servers ≡ some srv
    → start m cmd disk now ≡ m
unfolding start
start_known m cmd disk now srv e = elim (Bool-cases (string_eq.beq cmd.server_id "")) [
  | inl unnamed ↦ rw unnamed refl
  | inr named ↦ rw named (rw (e, start) refl)
]

start_unnamed :
    (m : Manager) (cmd : StartServer) (disk : ℕ × ℕ) (now : ℕ)
    → string_eq.beq cmd.server_id "" ≡ true
    → start m cmd disk now ≡ m
unfolding start
start_unnamed m cmd disk now e = rw e refl

start_new :
    (m : Manager) (cmd : StartServer) (disk : ℕ × ℕ) (now : ℕ)
    → string_eq.beq cmd.server_id "" ≡ false
    → lookup cmd.server_id m.servers ≡ none
    → start m cmd disk now
      ≡ admit m
          (new_server cmd.server_id cmd.image_ref pulling takes_port cmd)
          disk
          now
          m.draining
          (is_disk_full m.config.disk_full_watermark_pct disk)
unfolding start
start_new m cmd disk now named e = rw named (rw (e, start) refl)

-- A replayed `StartServer` of the same name changes nothing, whatever the first one came to (a
-- launch, or a refusal by the drain or the disk) and whatever the second one asks for.
pub start_idempotent :
    (m : Manager) (cmd cmd' : StartServer) (disk disk' : ℕ × ℕ) (now now' : ℕ)
    → cmd'.server_id ≡ cmd.server_id
    → start (start m cmd disk now) cmd' disk' now' ≡ start m cmd disk now
unfolding new_server
start_idempotent m cmd cmd' disk disk' now now' same =
    elim (Bool-cases (string_eq.beq cmd.server_id "")) [
      | inl unnamed ↦ start_unnamed _ cmd' disk' now' (rw same unnamed)
      | inr named ↦ elim (Option-cases (lookup cmd.server_id m.servers)) [
        | inr (srv, e) ↦
            rw (start_known m cmd disk now srv e) (start_known m cmd' disk' now' srv (rw same e))
        | inl e ↦
            let srv = new_server cmd.server_id cmd.image_ref pulling takes_port cmd in
            let full = is_disk_full m.config.disk_full_watermark_pct disk in
            let (known, found) = admit-known m srv disk now m.draining full in
            rw (start_new m cmd disk now named e) (
              start_known (admit m srv disk now m.draining full) cmd' disk' now' known
                (rw same found))
      ]
    ]

-- The state of the server that a first `Start` leaves: on a draining node and with a full disk.
abbrev pub outcome : Bool → Bool → State
outcome true full = failed
outcome false true = failed
outcome false false = pulling

-- What is in the map afterwards.
pub record Started (m : Manager) (id : String) (st : State) (m' : Manager) : Type 0 where
  pub srv : Server
  pub listed : lookup id m'.servers ≡ some srv
  pub state : srv.machine.cur ≡ st
  pub ports : m'.pool ≡ m.pool
  pub others : (j : String) → j ≢ id → lookup j m'.servers ≡ lookup j m.servers

lookup-insert_other :
    (k j : String) (v : Server) (m : List (String × Server))
    → j ≢ k
    → lookup j (insert k v m) ≡ lookup j m
lookup-insert_other k j v m ne = rw (lookup-insert k j v m) (elim (Bool-cases (string_eq.beq k j)) [
  | inl same ↦ absurd (ne (sym ((string_eq.beq_iff k j).0 same)))
  | inr other ↦ rw other refl
])

put-Started :
    (m : Manager) (srv : Server) (es : List Effect) (st : State)
    → srv.machine.cur ≡ st
    → Started m srv.id st (record m { servers = insert srv.id srv m.servers; effects = es })
put-Started m srv es st e = record {
  srv = srv;
  listed = lookup-insert_self srv.id srv m.servers;
  state = e;
  ports = refl;
  others = λ j ne. lookup-insert_other srv.id j srv m.servers ne;
}

fail_pulling :
    (srv : Server) (reason : String) (now : ℕ)
    → srv.machine.cur ≡ pulling
    → ((fail srv reason now).0.machine.cur ≡ failed) × ((fail srv reason now).0.id ≡ srv.id)
unfolding fail transition to next
fail_pulling srv reason now h = ground arith

reject-Started :
    (m : Manager) (srv : Server) (before : List Effect) (reason : String) (now : ℕ)
    → srv.machine.cur ≡ pulling
    → Started m srv.id failed (reject m srv before reason now)
unfolding reject
reject-Started m srv before reason now h =
    let (at_failed, same) = fail_pulling srv reason now h in
    record {
      srv = (fail srv reason now).0;
      listed = lookup-insert_self srv.id _ m.servers;
      state = at_failed;
      ports = refl;
      others = λ j ne. lookup-insert_other srv.id j _ m.servers ne;
    }

admit-Started :
    (m : Manager) (srv : Server) (disk : ℕ × ℕ) (now : ℕ) (closed full : Bool)
    → srv.machine.cur ≡ pulling
    → Started m srv.id (outcome closed full) (admit m srv disk now closed full)
unfolding admit
admit-Started m srv disk now true full h = reject-Started m srv [] _ now h
admit-Started m srv disk now false true h =
    reject-Started m srv (disk_event srv.id (disk_detail m.config.disk_full_watermark_pct disk)) _
      now h
admit-Started m srv disk now false false h = put-Started m srv _ pulling h

-- `StartServer` of a name that is not in the map lists the server at once: failed on a draining
-- node or with a full disk, pulling otherwise. It takes no port yet and leaves the others alone.
pub start-Started :
    (m : Manager) (cmd : StartServer) (disk : ℕ × ℕ) (now : ℕ)
    → cmd.server_id ≢ ""
    → lookup cmd.server_id m.servers ≡ none
    → Started m cmd.server_id
        (outcome m.draining (is_disk_full m.config.disk_full_watermark_pct disk))
        (start m cmd disk now)
unfolding new_server new_machine_at
start-Started m cmd disk now named e =
    rw (start_new m cmd disk now (ground (arith, string_eq.beq_iff cmd.server_id "")) e) (
      admit-Started m (new_server cmd.server_id cmd.image_ref pulling takes_port cmd) disk now
        m.draining _ refl)

-- A watermark of 0 does not turn the disk guard off: with it every start on a disk of known size is
-- refused.
pub watermark_zero_refuses :
    (m : Manager) (cmd : StartServer) (used total now : ℕ)
    → m.config.disk_full_watermark_pct ≡ 0
    → 0 < total
    → cmd.server_id ≢ ""
    → lookup cmd.server_id m.servers ≡ none
    → Started m cmd.server_id failed (start m cmd (used, total) now)
unfolding is_disk_full
watermark_zero_refuses m cmd used total now zero' size named e =
    let full : is_disk_full m.config.disk_full_watermark_pct (used, total) ≡ true =
      rw zero' (ground arith) in
    let refused : outcome m.draining true ≡ failed = elim (Bool-cases m.draining) [
      | inl d ↦ rw d refl
      | inr d ↦ rw d refl
    ] in
    subst (λ st. Started m cmd.server_id st (start m cmd (used, total) now))
      (ap (outcome m.draining) full ∙ refused) (start-Started m cmd (used, total) now named e)
