-- ===== src/Agent/Daemon/Told.antt =====
-- Every step of a server tells the master of the moves that it makes, and of no other.
use birdman.Base.{
  Bool, List, Option, String, [], arith, concat, false, if_cases, if◌then◌else◌, nat_eq, none, refl,
  some, string_eq, true, ℕ, ℤ, ◌==◌, ◌||◌, ◌∷◌, ◌≡◌,
}
use birdman.Agent.Lifecycle.{allocated, draining, failed, is_terminal, ready, starting, stopped}
use birdman.Agent.Ports.{Outcome, Pool, granted, refused}
use birdman.Agent.Uds
use birdman.Agent.Daemon.Server.{
  Effect, Phase, Server, deletes, finalizes_log, is_phase, is_state, kills, opens_socket,
  runs_container, server_event, signals_term, store_state, supervised, takes_port, transition,
}
use birdman.Agent.Daemon.Supervise.{
  Callback, Exit, Local, LogConfig, Moved, allocate, allocates_match, begin_draining, begin_stop,
  callback, calls_back, drain_server, drains_server, exited, finish, local, note_allocation,
  on_match_end, on_match_start, on_metric, on_players, on_ready, on_sock, open_socket, open_sockets,
  quiet, run_container, run_containers, see_exits, see_grace, see_graces, see_kill_timer,
  see_kill_timers, see_ping, see_pings, see_ready, see_readys, see_stop, see_stops, settle, stop,
  stops, take_port, take_ports, time_out, watch_failed, when, with_port, write_frame, writes_frame,
}
use birdman.Agent.Daemon.Reports.{
  Kind, Truthful, Truthful-refl, fail-Truthful, frame, kind_name, still, tells_failed, tells_ready,
  told, told-last, told-store_state, transition-Truthful,
}

see_ready-Truthful : (srv : Server) (now : ℕ) → Truthful srv (see_ready srv now)
unfolding see_ready told
see_ready-Truthful srv now =
    let heard = record srv { ready_ch = false } in
    if_cases (Truthful srv) (is_state srv.machine.cur starting) _ _
      (frame srv heard (transition heard ready "liba ready" now) _ _ (refl, refl) (refl, refl)
        (λ id k. refl) (transition-Truthful heard ready "liba ready" now))
      (still srv heard [] (refl, refl) (λ id k. refl))

see_grace-Truthful : (srv : Server) (now : ℕ) → Truthful srv (see_grace srv now)
unfolding see_grace time_out told
see_grace-Truthful srv now =
    let out = transition srv failed "no ready within 30s" now in
    if_cases (Truthful srv) (is_state srv.machine.cur starting) _ _
      (frame srv srv out _ _ (refl, refl) (refl, refl)
        (λ id k. told-last id k out.1 (kills srv.id ∷ []) refl)
        (transition-Truthful srv failed "no ready within 30s" now))
      (Truthful-refl srv)

begin_draining-Truthful :
    (srv : Server) (reason : String) (now : ℕ) → Truthful srv (begin_draining srv reason now)
unfolding begin_draining
begin_draining-Truthful srv reason now =
    if_cases (Truthful srv) (is_state srv.machine.cur ready || is_state srv.machine.cur allocated) _
      _ (transition-Truthful srv draining reason now) (Truthful-refl srv)

begin_stop-Truthful : (srv : Server) (now : ℕ) → Truthful srv (begin_stop srv now)
unfolding begin_stop told
begin_stop-Truthful srv now =
    let asked = record srv { stop_requested = true } in
    let out = begin_draining asked "stop requested by master" now in
    frame srv asked out _ _ (refl, refl) (refl, refl)
      (λ id k. told-last id k out.1 (signals_term srv.id ∷ []) refl)
      (begin_draining-Truthful asked "stop requested by master" now)

see_stop-Truthful : (srv : Server) (now : ℕ) → Truthful srv (see_stop srv now)
unfolding see_stop told
see_stop-Truthful srv now =
    elim srv.stop_ch
      as (λ c. Truthful srv (elim c [
        | none ↦ (srv, [])
        | some grace ↦
            if srv.stop_requested
            then (record srv { stop_ch = none }, [])
            else begin_stop (record srv { stop_ch = none }) now
      ])) [
        | none ↦ Truthful-refl srv
        | some grace ↦
            let taken = record srv { stop_ch = none } in
            if_cases (Truthful srv) srv.stop_requested _ _
              (still srv taken [] (refl, refl) (λ id k. refl))
              (frame srv taken (begin_stop taken now) _ _ (refl, refl) (refl, refl) (λ id k. refl)
                (begin_stop-Truthful taken now))
      ]

see_kill_timer-Truthful : (srv : Server) → Truthful srv (see_kill_timer srv)
unfolding see_kill_timer told
see_kill_timer-Truthful srv =
    if_cases (Truthful srv) srv.kill_armed _ _ (still srv _ _ (refl, refl) (λ id k. refl))
      (Truthful-refl srv)

on_sock_same :
    (srv : Server) (f : Uds.Server → Uds.Server)
    → ((on_sock srv f).id ≡ srv.id) × ((on_sock srv f).machine ≡ srv.machine)
unfolding on_sock
on_sock_same srv f = ground arith

stop_same :
    (srv : Server) (grace_s : ℤ)
    → ((stop srv grace_s).id ≡ srv.id) × ((stop srv grace_s).machine ≡ srv.machine)
unfolding stop
stop_same srv grace_s = ground arith

note_allocation-Truthful :
    (srv : Server) (match_id : String) (now : ℕ) → Truthful srv (note_allocation srv match_id now)
unfolding note_allocation told
note_allocation-Truthful srv match_id now =
    let named = record srv { match_id = match_id } in
    if_cases (Truthful srv) (is_state srv.machine.cur ready) _ _
      (frame srv named (transition named allocated _ now) _ _ (refl, refl) (refl, refl)
        (λ id k. refl) (transition-Truthful named allocated _ now))
      (if_cases (Truthful srv) (is_state srv.machine.cur allocated) _ _
        (still srv named (store_state named) (refl, refl) (λ id k. told-store_state id k named))
        (still srv named [] (refl, refl) (λ id k. refl)))

allocate-Truthful :
    (srv : Server) (a : Uds.Allocation) (now : ℕ) → Truthful srv (allocate srv a now)
unfolding allocate
allocate-Truthful srv a now =
    let out = note_allocation srv a.match_id now in
    frame srv srv out _ _ (refl, refl) (on_sock_same out.0 _) (λ id k. refl)
      (note_allocation-Truthful srv a.match_id now)

drain_server-Truthful :
    (srv : Server) (deadline : ℤ) (reason : String) (now : ℕ)
    → Truthful srv (drain_server srv deadline reason now)
unfolding drain_server
drain_server-Truthful srv deadline reason now =
    let text = concat ("drain requested by master (" ∷ reason ∷ ")" ∷ []) in
    let out = begin_draining srv text now in
    frame srv srv out _ _ (refl, refl) (on_sock_same out.0 _) (λ id k. refl)
      (begin_draining-Truthful srv text now)

callback-Truthful : (srv : Server) (c : Callback) → Truthful srv (callback srv c)
unfolding callback told kind_name
callback-Truthful srv on_ready = still srv _ _ (refl, refl) (λ id k. refl)
callback-Truthful srv (on_players n) = still srv _ _ (refl, refl) (λ id k. refl)
callback-Truthful srv (on_metric metric v) =
    if_cases (Truthful srv) (string_eq.beq metric "tick_ms") _ _
      (still srv _ _ (refl, refl) (λ id k. refl)) (Truthful-refl srv)
callback-Truthful srv (on_match_start match_id) =
    let named = record srv { match_id = match_id } in
    still srv named _ (refl, refl)
      (λ id k.
        match_event id k "match_start" match_id (store_state named) (kind_other k)
          (told-store_state id k named))
  where
    kind_other : (k : Kind) → string_eq.beq "match_start" (kind_name k) ≡ false
    kind_other tells_ready = refl
    kind_other tells_failed = refl

    match_event :
        (id : String) (k : Kind) (kind detail : String) (es : List Effect)
        → string_eq.beq kind (kind_name k) ≡ false
        → told id k es ≡ 0
        → told id k (server_event srv.id kind detail ∷ es) ≡ 0
    match_event id k kind detail es h e = ground arith
callback-Truthful srv (on_match_end match_id result) =
    still srv srv _ (refl, refl) (λ id k. other id k)
  where
    other :
        (id : String) (k : Kind)
        → told id k (server_event srv.id "match_end" (concat (match_id ∷ " " ∷ result ∷ [])) ∷ [])
          ≡ 0
    other id tells_ready = ground arith
    other id tells_failed = ground arith

-- The pool's side of a step tells nothing.
abbrev pub IsTruthful : Server → Moved → Type 0
IsTruthful srv (p, srv', es) = Truthful srv (srv', es)

with_port-IsTruthful :
    (p : Pool) (srv : Server) (got : Pool × Outcome) (now : ℕ)
    → IsTruthful srv (with_port p srv got now)
unfolding with_port told
with_port-IsTruthful p srv (p', granted q) now = still srv _ [] (refl, refl) (λ id k. refl)
with_port-IsTruthful p srv (p', refused e) now = fail-Truthful srv _ now

open_socket-IsTruthful :
    (p : Pool) (srv : Server) (err : Option String) (now : ℕ)
    → IsTruthful srv (open_socket p srv err now)
unfolding open_socket told
open_socket-IsTruthful p srv none now = still srv _ [] (refl, refl) (λ id k. refl)
open_socket-IsTruthful p srv (some err) now = fail-Truthful srv _ now

run_container-IsTruthful :
    (cfg : LogConfig) (p : Pool) (srv : Server) (mkdir_ok : Bool) (err : Option String) (now : ℕ)
    → IsTruthful srv (run_container cfg p srv mkdir_ok err now)
unfolding run_container
run_container-IsTruthful cfg p srv mkdir_ok none now =
    frame srv _ _ _ _ (refl, refl) (refl, refl) (λ id k. refl)
      (transition-Truthful _ starting "container started" now)
run_container-IsTruthful cfg p srv mkdir_ok (some e) now =
    frame srv _ _ _ _ (refl, refl) (refl, refl) (λ id k. refl) (fail-Truthful _ _ now)

settle-Truthful : (srv : Server) (exit : Exit) (now : ℕ) → Truthful srv (settle srv exit now)
unfolding settle
settle-Truthful srv watch_failed now =
    if_cases (Truthful srv) (is_terminal srv.machine.cur) _ _ (Truthful-refl srv)
      (transition-Truthful srv failed _ now)
settle-Truthful srv (exited code) now =
    if_cases (Truthful srv) (is_terminal srv.machine.cur) _ _ (Truthful-refl srv) (
      if_cases (Truthful srv) (srv.stop_requested || code == 0) _ _
        (transition-Truthful srv stopped _ now) (transition-Truthful srv failed _ now))

finish-IsTruthful :
    (p : Pool) (srv : Server) (exit : Exit) (now : ℕ) → IsTruthful srv (finish p srv exit now)
unfolding finish told
finish-IsTruthful p srv exit now =
    let out = settle srv exit now in
    frame srv srv out _ _ (refl, refl) (refl, refl)
      (λ id k. told-last id k out.1 (deletes srv.id ∷ finalizes_log srv.id ∷ []) refl)
      (settle-Truthful srv exit now)

when-IsTruthful :
    (ph : Phase) (p : Pool) (srv : Server) (out : Moved)
    → IsTruthful srv out
    → IsTruthful srv (when ph p srv out)
when-IsTruthful ph p srv out h =
    if_cases (IsTruthful srv) (is_phase srv.phase ph) out (quiet p srv) h (Truthful-refl srv)

pub local-IsTruthful :
    (cfg : LogConfig) (p : Pool) (srv : Server) (l : Local) → IsTruthful srv (local cfg p srv l)
unfolding local take_port see_ping write_frame told
local-IsTruthful cfg p srv (take_ports now) =
    when-IsTruthful takes_port p srv _ (with_port-IsTruthful p srv _ now)
local-IsTruthful cfg p srv (open_sockets err now) =
    when-IsTruthful opens_socket p srv _ (open_socket-IsTruthful p srv err now)
local-IsTruthful cfg p srv (run_containers mkdir_ok err now) =
    when-IsTruthful runs_container p srv _ (run_container-IsTruthful cfg p srv mkdir_ok err now)
local-IsTruthful cfg p srv (see_readys now) =
    if_cases (IsTruthful srv) srv.ready_ch _ (quiet p srv)
      (when-IsTruthful supervised p srv _ (see_ready-Truthful srv now)) (Truthful-refl srv)
local-IsTruthful cfg p srv (see_graces now) =
    when-IsTruthful supervised p srv _ (see_grace-Truthful srv now)
local-IsTruthful cfg p srv (see_stops now) =
    when-IsTruthful supervised p srv _ (see_stop-Truthful srv now)
local-IsTruthful cfg p srv see_kill_timers =
    when-IsTruthful supervised p srv _ (see_kill_timer-Truthful srv)
local-IsTruthful cfg p srv see_pings =
    when-IsTruthful supervised p srv _ (still srv _ [] (on_sock_same srv _) (λ id k. refl))
local-IsTruthful cfg p srv (writes_frame i ok) = still srv _ [] (on_sock_same srv _) (λ id k. refl)
local-IsTruthful cfg p srv (see_exits exit now) =
    when-IsTruthful supervised p srv _ (finish-IsTruthful p srv exit now)
local-IsTruthful cfg p srv (stops grace_s) = still srv _ [] (stop_same srv grace_s) (λ id k. refl)
local-IsTruthful cfg p srv (allocates_match a now) = allocate-Truthful srv a now
local-IsTruthful cfg p srv (drains_server deadline reason now) =
    drain_server-Truthful srv deadline reason now
local-IsTruthful cfg p srv (calls_back c) = callback-Truthful srv c
