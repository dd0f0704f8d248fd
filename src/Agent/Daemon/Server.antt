-- ===== src/Agent/Daemon/Server.antt =====
-- One supervised server (`server` of agent/internal/daemon/manager.go), and the manager's
-- bookkeeping of its state.
use birdman.Base.{
  Bool, List, Option, String, [], concat, decimal, false, if◌then◌else◌, none, pos, some, true, ℕ,
  ℤ, ◌++◌, ◌∷◌,
}
use birdman.Agent.Ports.{Pool, PoolError, already_in_use, exhausted, not_acquired, outside_range}
use birdman.Agent.Lifecycle.{
  Machine, State, allocated, draining, failed, is_terminal, new_machine_at, pulling, ready,
  starting, stopped, to,
}
use birdman.Agent.Uds

-- What the manager asks of the container runtime and of the master, in the order in which it does.
pub data Effect : Type 0 where
  server_event : String → String → String → Effect
  set_state : String → String → String → Effect
  signals_term kills deletes finalizes_log : String → Effect
  touches : String → Effect

-- Where the goroutine of a server stands: before a step of `launch`, in the loop of `supervise`, or
-- at its end.
pub data Phase : Type 0 where
  takes_port opens_socket runs_container supervised over : Phase

abbrev pub is_phase : Phase → Phase → Bool
is_phase takes_port takes_port = true
is_phase opens_socket opens_socket = true
is_phase runs_container runs_container = true
is_phase supervised supervised = true
is_phase over over = true
is_phase _ _ = false

abbrev pub is_state : State → State → Bool
is_state pulling pulling = true
is_state starting starting = true
is_state ready ready = true
is_state allocated allocated = true
is_state draining draining = true
is_state stopped stopped = true
is_state failed failed = true
is_state _ _ = false

pub record StartServer : Type 0 where
  pub server_id : String
  pub image_ref : String
  pub wanted_port : ℕ  -- 0 leaves the choice to the agent
  pub env : List (String × String)

-- `ready_ch` and `stop_ch` are channels of capacity one; `done_at` is none for the zero time;
-- `kill_armed` says that `killCh` of `supervise` is set. A handle is known by the server's id.
-- `tick_ms` is the code of a float.
pub record Server : Type 0 where
  pub id : String
  pub image_ref : String
  pub machine : Machine
  pub ready_ch : Bool
  pub stop_ch : Option ℕ
  pub port : ℕ
  pub sock : Option Uds.Server
  pub handle : Bool
  pub players : ℤ
  pub tick_ms : ℕ
  pub match_id : String
  pub stop_requested : Bool
  pub done_at : Option ℕ
  pub project : String
  pub scope_env : String
  pub log_path : String
  pub phase : Phase
  pub kill_armed : Bool
  pub cmd : StartServer

unfoldable pub state_name : State → String
state_name pulling = "pulling"
state_name starting = "starting"
state_name ready = "ready"
state_name allocated = "allocated"
state_name draining = "draining"
state_name stopped = "stopped"
state_name failed = "failed"

-- `newServer`; the goroutine that follows is `launch`, or `supervise` for a restored server.
unfoldable pub new_server : String → String → State → Phase → StartServer → Server
new_server id image_ref at phase cmd = record {
  id = id;
  image_ref = image_ref;
  machine = new_machine_at id at;
  ready_ch = false;
  stop_ch = none;
  port = 0;
  sock = none;
  handle = false;
  players = pos 0;
  tick_ms = 0;
  match_id = "";
  stop_requested = false;
  done_at = none;
  project = "";
  scope_env = "";
  log_path = "";
  phase = phase;
  kill_armed = false;
  cmd = cmd;
}

unfoldable pub store_state : Server → List Effect
unfolding state_name
store_state srv =
    if srv.handle then set_state srv.id (state_name srv.machine.cur) srv.match_id ∷ [] else []

-- The events of `transition`.
unfoldable pub announce : String → State → String → List Effect
announce id ready reason = server_event id "ready" reason ∷ []
announce id failed reason = server_event id "failed" reason ∷ []
announce id _ reason = []

unfoldable pub transition : Server → State → String → ℕ → Server × List Effect
unfolding announce store_state
transition srv st reason now =
    let (m, legal) = to srv.machine st reason now in
    let moved = record srv { machine = m } in
    if legal
    then (moved, announce srv.id st reason ++ (if is_terminal st then [] else store_state moved))
    else (srv, [])

-- `fail`, after which every caller's goroutine ends.
unfoldable pub fail : Server → String → ℕ → Server × List Effect
unfolding transition
fail srv reason now =
    let (srv', es) = transition srv failed reason now in
    (record srv' { done_at = some now; phase = over }, es)

-- `Error` of the pool's errors.
unfoldable pub port_error : Pool → ℕ → PoolError → String
port_error p port exhausted = "port pool exhausted"
port_error p port outside_range = concat (
    "port "
    ∷ decimal port
    ∷ " outside pool range ["
    ∷ decimal p.from
    ∷ ", "
    ∷ decimal p.to
    ∷ "]"
    ∷ [])
port_error p port already_in_use = concat ("port " ∷ decimal port ∷ " already in use" ∷ [])
port_error p port not_acquired = concat ("port " ∷ decimal port ∷ " is not acquired" ∷ [])
