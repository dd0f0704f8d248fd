-- ===== src/Agent/Daemon/Supervise.antt =====
-- The goroutines of one server: `launch`, `supervise` and `finish`, the handlers of the commands
-- that are about one server, and the callbacks of its socket. A step is what runs between two waits.
use birdman.Base.{
  Bool, List, Option, String, [], concat, decimal, false, if◌then◌else◌, ltb, nat_eq, negsuc, none,
  pos, some, string_eq, true, ℕ, ℤ, ◌++◌, ◌==◌, ◌||◌, ◌∷◌,
}
use birdman.Agent.Ports.{Outcome, Pool, acquire, acquire_specific, granted, refused, release}
use birdman.Agent.Lifecycle.{allocated, draining, failed, is_terminal, ready, starting, stopped}
use birdman.Agent.Uds
use birdman.Agent.Daemon.Server.{
  Effect, Phase, Server, deletes, fail, finalizes_log, is_phase, is_state, kills, opens_socket,
  over, port_error, runs_container, server_event, signals_term, store_state, supervised, takes_port,
  transition,
}
use birdman.Agent.Daemon.Scope.{server_log_path, server_scope}

-- `LogScopeDirs` and the log directory of the configuration.
pub record LogConfig : Type 0 where
  pub scope_dirs : Bool
  pub log_dir : String

-- The pool and the server after a step, and what the step asks for.
abbrev pub Moved : Type 0
Moved = Pool × Server × List Effect

abbrev pub quiet : Pool → Server → Moved
quiet p srv = (p, srv, [])

abbrev pub with_pool : Pool → Server × List Effect → Moved
with_pool p (srv, es) = (p, srv, es)

-- What `launch` makes of the pool's answer.
unfoldable pub with_port : Pool → Server → Pool × Outcome → ℕ → Moved
unfolding fail port_error concat
with_port p srv (p', granted q) now = quiet p' (record srv { port = q; phase = opens_socket })
with_port p srv (p', refused e) now =
    with_pool p'
      (fail srv (concat ("no host port: " ∷ port_error p srv.cmd.wanted_port e ∷ [])) now)

-- `launch`, up to the socket.
unfoldable pub take_port : Pool → Server → ℕ → Moved
unfolding with_port
take_port p srv now =
    with_port p srv
      (if ltb 0 srv.cmd.wanted_port then acquire_specific p srv.cmd.wanted_port else acquire p) now

-- `listenSocket`, which may fail with a message.
unfoldable pub open_socket : Pool → Server → Option String → ℕ → Moved
unfolding fail concat
open_socket p srv none now = quiet p (record srv { sock = some Uds.listen; phase = runs_container })
open_socket p srv (some err) now =
    with_pool (release p srv.port).0 (fail srv (concat ("agent socket: " ∷ err ∷ [])) now)

abbrev close_sock : Option Uds.Server → Option Uds.Server
close_sock none = none
close_sock (some s) = some (Uds.close s)

-- The rest of `launch`: the owner's pair, the log file, and `rt.Start`, which may fail.
unfoldable pub run_container : LogConfig → Pool → Server → Bool → Option String → ℕ → Moved
unfolding fail transition server_scope server_log_path concat
run_container cfg p srv mkdir_ok err now =
    let (project, env_name) = server_scope srv.cmd.env in
    let srv' = record srv {
      project = project;
      scope_env = env_name;
      log_path = server_log_path cfg.scope_dirs cfg.log_dir srv.id srv.cmd.env mkdir_ok;
    } in
    elim err [
      | none ↦ with_pool p (
          transition (record srv' { handle = true; phase = supervised }) starting
            "container started" now)
      | some e ↦ with_pool (release p srv.port).0 (
          fail (record srv' { sock = close_sock srv.sock }) (concat ("container start: " ∷ e ∷ []))
            now)
    ]

-- The cases of the loop of `supervise`.
unfoldable pub see_ready : Server → ℕ → Server × List Effect
unfolding transition
see_ready srv now =
    let heard = record srv { ready_ch = false } in
    if is_state srv.machine.cur starting
    then transition heard ready "liba ready" now
    else (heard, [])

-- `transition` to `failed`, and the kill.
unfoldable pub time_out : Server → ℕ → Server × List Effect
unfolding transition
time_out srv now =
    let (srv', es) = transition srv failed "no ready within 30s" now in
    (srv', es ++ kills srv.id ∷ [])

unfoldable pub see_grace : Server → ℕ → Server × List Effect
unfolding time_out
see_grace srv now = if is_state srv.machine.cur starting then time_out srv now else (srv, [])

unfoldable pub begin_draining : Server → String → ℕ → Server × List Effect
unfolding transition
begin_draining srv reason now =
    if is_state srv.machine.cur ready || is_state srv.machine.cur allocated
    then transition srv draining reason now
    else (srv, [])

-- The first request to stop a server in `supervise`.
unfoldable pub begin_stop : Server → ℕ → Server × List Effect
unfolding begin_draining
begin_stop srv now =
    let (srv', es) =
      begin_draining (record srv { stop_requested = true }) "stop requested by master" now in
    (record srv' { kill_armed = true }, es ++ signals_term srv.id ∷ [])

-- The grace of the request only sets the timer.
unfoldable pub see_stop : Server → ℕ → Server × List Effect
unfolding begin_stop
see_stop srv now =
    let taken = record srv { stop_ch = none } in
    elim srv.stop_ch [
      | none ↦ (srv, [])
      | some grace ↦ if srv.stop_requested then (taken, []) else begin_stop taken now
    ]

unfoldable pub see_kill_timer : Server → Server × List Effect
see_kill_timer srv =
    if srv.kill_armed then (record srv { kill_armed = false }, kills srv.id ∷ []) else (srv, [])

unfoldable pub on_sock : Server → (Uds.Server → Uds.Server) → Server
on_sock srv f = elim srv.sock [ none ↦ srv | some s ↦ record srv { sock = some (f s) } ]

unfoldable pub see_ping : Server → Server
unfolding on_sock
see_ping srv = on_sock srv (λ s. (Uds.send_ping s).0)

-- The write of a frame to the socket, for any of the goroutines that send one.
unfoldable pub write_frame : Server → ℕ → Bool → Server
unfolding on_sock
write_frame srv i ok = on_sock srv (λ s. Uds.write_send s i ok)

-- `Exit`: the code, or the failure of the watch.
pub data Exit : Type 0 where
  exited : ℕ → Exit
  watch_failed : Exit

-- The first half of `finish`: the final state.
unfoldable pub settle : Server → Exit → ℕ → Server × List Effect
unfolding transition concat
settle srv watch_failed now =
    if is_terminal srv.machine.cur then (srv, []) else transition srv failed "exit watch failed" now
settle srv (exited code) now =
    if is_terminal srv.machine.cur
    then (srv, [])
    else if srv.stop_requested || code == 0
    then transition srv stopped (concat ("container exited (code " ∷ decimal code ∷ ")" ∷ [])) now
    else transition srv failed (concat ("container exited with code " ∷ decimal code ∷ [])) now

unfoldable pub finish : Pool → Server → Exit → ℕ → Moved
unfolding settle
finish p srv exit now =
    let (srv', es) = settle srv exit now in
    (
      if ltb 0 srv.port then (release p srv.port).0 else p,
      record srv' { sock = close_sock srv.sock; done_at = some now; phase = over },
      es ++ deletes srv.id ∷ finalizes_log srv.id ∷ [],
    )

-- `Stop`: the channel holds one request.
unfoldable pub stop : Server → ℤ → Server
stop srv grace_s =
    let grace : ℕ = elim grace_s [ pos n ↦ if n == 0 then 30 else n | negsuc n ↦ 30 ] in
    elim srv.stop_ch [ none ↦ record srv { stop_ch = some grace } | some g ↦ srv ]

-- `Allocate` up to its frame: the match is noted, and the state moves or is stored again.
unfoldable pub note_allocation : Server → String → ℕ → Server × List Effect
unfolding transition store_state concat
note_allocation srv match_id now =
    let named = record srv { match_id = match_id } in
    if is_state srv.machine.cur ready
    then transition named allocated (concat ("allocated by master (match " ∷ match_id ∷ ")" ∷ []))
        now
    else if is_state srv.machine.cur allocated
    then (named, store_state named)
    else (named, [])

unfoldable pub allocate : Server → Uds.Allocation → ℕ → Server × List Effect
unfolding note_allocation on_sock
allocate srv a now =
    let (srv', es) = note_allocation srv a.match_id now in
    (on_sock srv' (λ s. (Uds.send_allocated s a).0), es)

unfoldable pub drain_server : Server → ℤ → String → ℕ → Server × List Effect
unfolding begin_draining on_sock concat
drain_server srv deadline reason now =
    let (srv', es) =
      begin_draining srv (concat ("drain requested by master (" ∷ reason ∷ ")" ∷ [])) now in
    (on_sock srv' (λ s. (Uds.send_drain s deadline reason).0), es)

-- The callbacks of `listenSocket`.
pub data Callback : Type 0 where
  on_ready : Callback
  on_players : ℤ → Callback
  on_metric : String → ℕ → Callback
  on_match_start : String → Callback
  on_match_end : String → String → Callback

unfoldable pub callback : Server → Callback → Server × List Effect
unfolding store_state concat
callback srv on_ready = (record srv { ready_ch = true }, [])
callback srv (on_players n) = (record srv { players = n }, [])
callback srv (on_metric metric v) =
    if string_eq.beq metric "tick_ms" then (record srv { tick_ms = v }, []) else (srv, [])
callback srv (on_match_start match_id) =
    let named = record srv { match_id = match_id } in
    (named, server_event srv.id "match_start" match_id ∷ store_state named)
callback srv (on_match_end match_id result) =
    (srv, server_event srv.id "match_end" (concat (match_id ∷ " " ∷ result ∷ [])) ∷ [])

-- The steps of one server; the last argument of most is the time.
pub data Local : Type 0 where
  take_ports : ℕ → Local
  open_sockets : Option String → ℕ → Local
  run_containers : Bool → Option String → ℕ → Local
  see_readys see_graces see_stops : ℕ → Local
  see_kill_timers : Local
  see_pings : Local
  writes_frame : ℕ → Bool → Local
  see_exits : Exit → ℕ → Local
  stops : ℤ → Local
  allocates_match : Uds.Allocation → ℕ → Local
  drains_server : ℤ → String → ℕ → Local
  calls_back : Callback → Local

-- A step of a goroutine is taken where the goroutine stands; elsewhere it does not happen.
abbrev pub when : Phase → Pool → Server → Moved → Moved
when ph p srv out = if is_phase srv.phase ph then out else quiet p srv

unfoldable pub local : LogConfig → Pool → Server → Local → Moved
unfolding take_port open_socket run_container see_ready see_grace see_stop see_kill_timer see_ping
    write_frame finish stop allocate drain_server callback
local cfg p srv (take_ports now) = when takes_port p srv (take_port p srv now)
local cfg p srv (open_sockets err now) = when opens_socket p srv (open_socket p srv err now)
local cfg p srv (run_containers mkdir_ok err now) =
    when runs_container p srv (run_container cfg p srv mkdir_ok err now)
local cfg p srv (see_readys now) =
    if srv.ready_ch then when supervised p srv (with_pool p (see_ready srv now)) else quiet p srv
local cfg p srv (see_graces now) = when supervised p srv (with_pool p (see_grace srv now))
local cfg p srv (see_stops now) = when supervised p srv (with_pool p (see_stop srv now))
local cfg p srv see_kill_timers = when supervised p srv (with_pool p (see_kill_timer srv))
local cfg p srv see_pings = when supervised p srv (quiet p (see_ping srv))
local cfg p srv (writes_frame i ok) = quiet p (write_frame srv i ok)
local cfg p srv (see_exits exit now) = when supervised p srv (finish p srv exit now)
local cfg p srv (stops grace_s) = quiet p (stop srv grace_s)
local cfg p srv (allocates_match a now) = with_pool p (allocate srv a now)
local cfg p srv (drains_server deadline reason now) =
    with_pool p (drain_server srv deadline reason now)
local cfg p srv (calls_back c) = with_pool p (callback srv c)
