-- ===== src/Agent/Daemon/Balance.antt =====
-- Every step of a server keeps the balance of the ports.
use birdman.Base.{Bool-cases, [], arith, false, if◌then◌else◌, inl, inr, true, ◌≡◌}
use birdman.Agent.Ports.{Pool}
use birdman.Agent.Ports.Ownership
use birdman.Agent.Daemon.Server.{
  Phase, Server, is_phase, opens_socket, runs_container, supervised, takes_port,
}
use birdman.Agent.Daemon.Supervise.{
  Local, LogConfig, Moved, allocates_match, calls_back, drains_server, local, open_sockets, quiet,
  run_containers, see_exits, see_graces, see_kill_timers, see_pings, see_ready, see_readys,
  see_stops, stops, take_ports, when, with_pool, writes_frame,
}
use birdman.Agent.Daemon.Phases.{
  IsFit, Tame-refl, allocate-Tame, callback-Tame, drain_server-Tame, see_grace-Tame,
  see_kill_timer-Tame, see_ping-Tame, see_ready-Tame, see_stop-Tame, stop-Tame, write_frame-Tame,
}
use birdman.Agent.Daemon.Ownership.{
  IsOwned, Kept, Tame-Kept, finish-Kept, open_socket-Kept, run_container-Kept, take_port-Kept,
}

is_phase→≡ : (a b : Phase) → is_phase a b ≡ true → a ≡ b
is_phase→≡ a b h = ground arith

when-Kept :
    (ph : Phase) (p : Pool) (srv : Server) (out : Moved)
    → Ownership.Inv p
    → IsFit srv
    → (srv.phase ≡ ph → Kept p srv out)
    → Kept p srv (when ph p srv out)
when-Kept ph p srv out v f k = elim (Bool-cases (is_phase srv.phase ph)) [
  | inl here ↦ rw here (k (is_phase→≡ _ _ here))
  | inr there ↦ rw there (Tame-Kept p srv srv [] v f (Tame-refl srv))
]

pub local-Kept :
    (cfg : LogConfig) (p : Pool) (srv : Server) (l : Local)
    → Ownership.Inv p
    → IsFit srv
    → IsOwned p srv
    → Kept p srv (local cfg p srv l)
unfolding local
local-Kept cfg p srv (take_ports now) v f o =
    when-Kept takes_port p srv _ v f (take_port-Kept p srv now v f)
local-Kept cfg p srv (open_sockets err now) v f o =
    when-Kept opens_socket p srv _ v f (open_socket-Kept p srv err now v f o)
local-Kept cfg p srv (run_containers mkdir_ok err now) v f o =
    when-Kept runs_container p srv _ v f (run_container-Kept cfg p srv mkdir_ok err now v f o)
local-Kept cfg p srv (see_readys now) v f o =
    elim srv.ready_ch
      as (λ b.
        Kept p srv
          (if b then when supervised p srv (with_pool p (see_ready srv now)) else quiet p srv)) [
            | true ↦
                when-Kept supervised p srv _ v f
                  (λ _. Tame-Kept p srv _ _ v f (see_ready-Tame srv now))
            | false ↦ Tame-Kept p srv srv [] v f (Tame-refl srv)
          ]
local-Kept cfg p srv (see_graces now) v f o =
    when-Kept supervised p srv _ v f (λ _. Tame-Kept p srv _ _ v f (see_grace-Tame srv now))
local-Kept cfg p srv (see_stops now) v f o =
    when-Kept supervised p srv _ v f (λ _. Tame-Kept p srv _ _ v f (see_stop-Tame srv now))
local-Kept cfg p srv see_kill_timers v f o =
    when-Kept supervised p srv _ v f (λ _. Tame-Kept p srv _ _ v f (see_kill_timer-Tame srv))
local-Kept cfg p srv see_pings v f o =
    when-Kept supervised p srv _ v f (λ _. Tame-Kept p srv _ _ v f (see_ping-Tame srv))
local-Kept cfg p srv (writes_frame i ok) v f o = Tame-Kept p srv _ _ v f (write_frame-Tame srv i ok)
local-Kept cfg p srv (see_exits exit now) v f o =
    when-Kept supervised p srv _ v f (finish-Kept p srv exit now v f o)
local-Kept cfg p srv (stops grace_s) v f o = Tame-Kept p srv _ _ v f (stop-Tame srv grace_s)
local-Kept cfg p srv (allocates_match a now) v f o =
    Tame-Kept p srv _ _ v f (allocate-Tame srv a now)
local-Kept cfg p srv (drains_server deadline reason now) v f o =
    Tame-Kept p srv _ _ v f (drain_server-Tame srv deadline reason now)
local-Kept cfg p srv (calls_back c) v f o = Tame-Kept p srv _ _ v f (callback-Tame srv c)
