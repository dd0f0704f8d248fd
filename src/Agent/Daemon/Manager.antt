-- ===== src/Agent/Daemon/Manager.antt =====
-- The manager (`Manager` of agent/internal/daemon/manager.go): the map of servers and the commands
-- that are about the node. `mu` makes each use of the map one step; the usage of the disk is an
-- argument, and the fraction of it is taken exactly, not as a float.
use birdman.Base.{
  Bool, List, Option, String, [], before, concat, decimal, false, if◌then◌else◌, insert, keep_if,
  leb, lookup, ltb, map, nat_eq, none, not, some, string_eq, total, true, ℕ, ℤ, ◌%◌, ◌&&◌, ◌*◌,
  ◌++◌, ◌+◌, ◌/◌, ◌∷◌,
}
use birdman.Matchmaker.Groups.{sort_slice, str_ltb}
use birdman.Agent.Ports.{Pool, acquire_specific, new}
use birdman.Agent.Lifecycle.{State, allocated, draining, is_terminal, pulling, ready, starting, to}
use birdman.Agent.Uds
use birdman.Agent.Daemon.Server.{
  Effect, Server, StartServer, deletes, fail, finalizes_log, new_server, server_event, state_name,
  supervised, takes_port, touches,
}
use birdman.Agent.Daemon.Scope.{scope_pair}
use birdman.Agent.Daemon.Supervise.{Local, LogConfig, Moved, local}

pub record Config : Type 0 where
  pub logs : LogConfig
  pub disk_full_watermark_pct : ℕ

-- `effects` is what was asked for so far, in order. `gone` is what `Snapshot` has evicted, of which
-- the source keeps nothing; no step reads it.
pub record Manager : Type 0 where
  pub config : Config
  pub pool : Pool
  pub servers : List (String × Server)
  pub draining : Bool
  pub effects : List Effect
  pub gone : List (String × Server)

-- `NewManager`: nothing comes of a range of ports that the pool refuses.
unfoldable pub new_manager : Config → ℤ → ℤ → Option Manager
new_manager config from to = elim (new from to) [
  | none ↦ none
  | some pool ↦ some (record {
    config = config;
    pool = pool;
    servers = [];
    draining = false;
    effects = [];
    gone = [];
  })
]

-- `%.0f` of `100 * used / total`, for a total that is not 0: to the nearest, ties to even.
unfoldable pub percent : ℕ → ℕ → ℕ
percent used total =
    let whole = 100 * used / total in
    let rest = 100 * used % total in
    if ltb (2 * rest) total
    then whole
    else if ltb total (2 * rest)
    then whole + 1
    else whole + whole % 2

-- The disk guard of `Start`: used bytes, total bytes.
unfoldable pub is_disk_full : ℕ → ℕ × ℕ → Bool
is_disk_full pct (used, total) = ltb 0 total && leb (pct * total) (100 * used)

unfoldable pub disk_detail : ℕ → ℕ × ℕ → String
unfolding percent concat
disk_detail pct (used, total) =
    concat ("data_dir disk " ∷ decimal (percent used total) ∷ "% >= " ∷ decimal pct ∷ "%" ∷ [])

-- `fail` of a server that joins the map with it; `before` is what was reported first.
unfoldable pub reject : Manager → Server → List Effect → String → ℕ → Manager
unfolding fail
reject m srv before reason now =
    let (srv', es) = fail srv reason now in
    record m { servers = insert srv.id srv' m.servers; effects = m.effects ++ (before ++ es) }

-- The event that the disk guard sends before it fails the server.
abbrev pub disk_event : String → String → List Effect
disk_event id detail = server_event id "disk_full" detail ∷ []

-- `Start` of a server that is not known: its tests of the node's drain and of the disk.
unfoldable pub admit : Manager → Server → ℕ × ℕ → ℕ → Bool → Bool → Manager
unfolding reject disk_detail concat
admit m srv disk now true full = reject m srv [] "node draining — start rejected" now
admit m srv disk now false true =
    let detail = disk_detail m.config.disk_full_watermark_pct disk in
    reject m srv (disk_event srv.id detail)
      (concat ("disk full — start rejected (" ∷ detail ∷ ")" ∷ [])) now
admit m srv disk now false false = record m {
  servers = insert srv.id srv m.servers;
  effects = m.effects ++ touches srv.image_ref ∷ [];
}

-- `Start`, up to the goroutine that it begins.
unfoldable pub start : Manager → StartServer → ℕ × ℕ → ℕ → Manager
unfolding new_server admit is_disk_full
start m cmd disk now =
    let srv = new_server cmd.server_id cmd.image_ref pulling takes_port cmd in
    if string_eq.beq cmd.server_id "" then m else elim (lookup cmd.server_id m.servers) [
      | some known ↦ m
      | none ↦ admit m srv disk now m.draining (is_disk_full m.config.disk_full_watermark_pct disk)
    ]

-- A step of the server `id`; none of it happens for a server that is not in the map.
unfoldable pub on_server : Manager → String → (Pool → Server → Moved) → Manager
on_server m id f = elim (lookup id m.servers) [
  | none ↦ m
  | some srv ↦
      let (p, srv', es) = f m.pool srv in
      record m { pool = p; servers = insert id srv' m.servers; effects = m.effects ++ es }
]

-- `Drain` and `Undrain`.
unfoldable pub drain : Manager → Manager
drain m = record m { draining = true }

unfoldable pub undrain : Manager → Manager
undrain m = record m { draining = false }

-- Seconds.
abbrev pub tombstone_ttl : ℕ
tombstone_ttl = 60

-- A terminal server whose end is more than the tombstone's time ago.
unfoldable pub is_expired : ℕ → Server → Bool
unfolding is_terminal
is_expired now srv = elim srv.done_at [
  | none ↦ false
  | some t ↦ is_terminal srv.machine.cur && ltb (t + tombstone_ttl) now
]

pub record ServerState : Type 0 where
  pub server_id : String
  pub state : String
  pub players : ℤ
  pub tick_ms : ℕ
  pub match_id : String
  pub port : ℕ
  pub version : String

abbrev pub report : String × Server → ServerState
report (id, srv) = record {
  server_id = id;
  state = state_name srv.machine.cur;
  players = srv.players;
  tick_ms = srv.tick_ms;
  match_id = srv.match_id;
  port = srv.port;
  version = srv.image_ref;
}

abbrev pub by_server_id : ServerState → ServerState → Bool
by_server_id a b = str_ltb a.server_id b.server_id

abbrev pub is_evicted : ℕ → String × Server → Bool
is_evicted now (id, srv) = is_expired now srv

abbrev pub is_current : ℕ → String × Server → Bool
is_current now (id, srv) = not (is_expired now srv)

unfoldable pub snapshot : Manager → ℕ → Manager × List ServerState
unfolding is_expired state_name sort_slice
snapshot m now =
    let kept = keep_if (is_current now) m.servers in
    (
      record m { servers = kept; gone = keep_if (is_evicted now) m.servers ++ m.gone },
      sort_slice by_server_id (map report kept),
    )

abbrev is_live_entry : String × Server → Bool
is_live_entry (id, srv) = not (is_terminal srv.machine.cur)

abbrev key : String × Server → String
key (id, srv) = id

-- `LiveServerIDs`.
unfoldable pub live_server_ids : Manager → List String
unfolding is_terminal sort_slice
live_server_ids m = sort_slice str_ltb (map key (keep_if is_live_entry m.servers))

-- The runtime's account of one container, for `Restore`.
pub record RestoredServer : Type 0 where
  pub id : String
  pub port : ℕ
  pub image_ref : String
  pub state : String
  pub match_id : String
  pub running : Bool
  pub exit_code : ℕ
  pub scope_project : String
  pub scope_env : String

unfoldable pub restored_state : String → State
restored_state label =
    if string_eq.beq label "ready"
    then ready
    else if string_eq.beq label "allocated"
    then allocated
    else if string_eq.beq label "draining"
    then draining
    else starting

-- A round of the loop of `Restore`: a container that runs; `listening` is whether its socket could
-- be opened.
unfoldable pub restore_running : Manager → RestoredServer → Bool → Manager
unfolding new_server restored_state scope_pair
restore_running m r listening =
    let (project, env_name) : String × String = elim (scope_pair r.scope_project r.scope_env) [
      | none ↦ ("", "")
      | some pair ↦ pair
    ] in
    let cmd : StartServer = record {
      server_id = r.id;
      image_ref = r.image_ref;
      wanted_port = r.port;
      env = [];
    } in
    record m {
      pool = (acquire_specific m.pool r.port).0;
      servers =
          insert r.id
            (record (new_server r.id r.image_ref (restored_state r.state) supervised cmd) {
              match_id = r.match_id;
              port = r.port;
              handle = true;
              project = project;
              scope_env = env_name;
              sock = if listening then some Uds.listen else none;
            })
            m.servers;
    }

-- And one that is dead.
unfoldable pub restore_dead : Manager → RestoredServer → Manager
unfolding concat
restore_dead m r = record m {
  effects =
      m.effects
      ++ (if string_eq.beq r.state "draining"
          then []
          else server_event r.id "failed"
              (concat ("found dead on agent restart (exit " ∷ decimal r.exit_code ∷ ")" ∷ []))
            ∷ [])
      ++ deletes r.id ∷ finalizes_log r.id ∷ [];
}

unfoldable pub restore_one : Manager → RestoredServer → Bool → Manager
unfolding restore_running restore_dead
restore_one m r listening = if r.running then restore_running m r listening else restore_dead m r

pub data Event : Type 0 where
  starts : StartServer → ℕ × ℕ → ℕ → Event
  on : String → Local → Event
  drains undrains : Event
  snapshots : ℕ → Event

unfoldable pub step : Manager → Event → Manager
unfolding start on_server drain undrain snapshot
step m (starts cmd disk now) = start m cmd disk now
step m (on id l) = on_server m id (λ p srv. local m.config.logs p srv l)
step m drains = drain m
step m undrains = undrain m
step m (snapshots now) = (snapshot m now).0

unfoldable pub run : Manager → List Event → Manager
unfolding step
run m [] = m
run m (e ∷ es) = run (step m e) es
