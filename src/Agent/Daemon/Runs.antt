-- ===== src/Agent/Daemon/Runs.antt =====
-- The manager at concrete inputs.
use birdman.Base.{
  List, String, [], arith, codes, false, lookup, nat_eq, ne_of_beq, none, pos, refl, some,
  string_eq, true, ◌++◌, ◌<◌, ◌∷◌, ◌≡◌, ◌≢◌,
}
use birdman.Agent.Ports
use birdman.Agent.Lifecycle.{allocated, failed, new_machine_at, pulling, starting, to}
use birdman.Agent.Daemon.Server.{Server, StartServer, new_server, takes_port}
use birdman.Agent.Daemon.Scope.{Scoped, server_scope, server_scope-Scoped}
use birdman.Agent.Daemon.Supervise.{
  allocates_match, calls_back, exited, local, on_ready, open_sockets, run_containers, see_exits,
  see_readys, take_ports,
}
use birdman.Agent.Daemon.Manager.{
  Config, Event, Manager, RestoredServer, is_disk_full, new_manager, on, restore_one, run, start,
  starts,
}
use birdman.Agent.Daemon.Invariant.{Inv, new_manager-Inv}
use birdman.Agent.Daemon.Sharing.{IsHeld, all_done_frees_ports, port_has_owner, ports_exclusive}
use birdman.Agent.Daemon.Reports.{tells_ready, told}
use birdman.Agent.Daemon.History.{IsAccounted, allocated_told_ready, run-IsAccounted}
use birdman.Agent.Daemon.Starting.{Started, start-Started, start_idempotent, watermark_zero_refuses}
use birdman.Agent.Daemon.Restoring.{restore_one-Inv}
use birdman.Agent.Daemon.Images.{
  Faults, Images, Means, Report, failed, pulling, remove_image, remove_image-Means,
}
use birdman.Agent.Daemon.Registries.{
  Allowed, RegistryCred, from_master, resolve_registry_auth, resolve_registry_auth-Allowed,
  set_registries,
}

abbrev config : Config
config = record {
  logs = record { scope_dirs = true; log_dir = "/var/log/birdman/servers" };
  disk_full_watermark_pct = 90;
}

abbrev node : Manager
node = record {
  config = config;
  pool = record { from = 7000; to = 7001; in_use = [] };
  servers = [];
  draining = false;
  effects = [];
  gone = [];
}

builds : new_manager config (pos 7000) (pos 7001) ≡ some node
unfolding new_manager Ports.new
builds = refl

node-Inv : Inv node
node-Inv = new_manager-Inv config (pos 7000) (pos 7001) builds

node-IsAccounted : IsAccounted node
unfolding told
node-IsAccounted = record { told_logged = λ id k. refl; lifecycles = tt }

abbrev owner : List (String × String)
owner = ("BIRDMAN_PROJECT", "arena") ∷ ("BIRDMAN_ENV", "prod") ∷ []

abbrev cmd : String → StartServer
cmd id = record { server_id = id; image_ref = "game:1"; wanted_port = 0; env = owner }

abbrev launch : String → List Event
launch id =
    starts (cmd id) (50, 100) 1
    ∷ on id (take_ports 2)
    ∷ on id (open_sockets none 3)
    ∷ on id (run_containers true none 4)
    ∷ []

abbrev day : List Event
day =
    launch "a"
    ++ launch "b"
    ++ on "a" (calls_back on_ready)
      ∷ on "a" (see_readys 5)
      ∷ on "a"
          (allocates_match (record { match_id = "m"; players_expected = pos 2; metadata = [] }) 6)
      ∷ []

abbrev after_day : Manager
after_day = run node day

two_ports : after_day.pool.in_use ≡ 7001 ∷ 7000 ∷ []
unfolding run local Ports.acquire Ports.release to new_machine_at
two_ports = refl

abbrev found : String → Manager → Server
found id m = elim (lookup id m.servers) [
  | none ↦ new_server id "" pulling takes_port (cmd id)
  | some srv ↦ srv
]

listed_a : lookup "a" after_day.servers ≡ some (found "a" after_day)
unfolding run local Ports.acquire Ports.release to new_machine_at
listed_a = refl

listed_b : lookup "b" after_day.servers ≡ some (found "b" after_day)
unfolding run local Ports.acquire Ports.release to new_machine_at
listed_b = refl

state_a : (found "a" after_day).machine.cur ≡ allocated
unfolding run local Ports.acquire Ports.release to new_machine_at
state_a = refl

state_b : (found "b" after_day).machine.cur ≡ starting
unfolding run local Ports.acquire Ports.release to new_machine_at
state_b = refl

name_a : (found "a" after_day).id ≡ "a"
unfolding run local Ports.acquire Ports.release to new_machine_at
name_a = refl

ports_exclusive_example : (found "a" after_day).port ≢ (found "b" after_day).port
ports_exclusive_example =
    ports_exclusive node day "a" "b" (found "a" after_day) (found "b" after_day) node-Inv
      (ne_of_beq "a" "b" refl) (listed_a, rw state_a refl) (listed_b, rw state_b refl)

port_has_owner_example : IsHeld 7001 after_day.servers
port_has_owner_example = port_has_owner node day 7001 node-Inv (rw two_ports refl)

run-IsAccounted_example : IsAccounted after_day
run-IsAccounted_example = run-IsAccounted node day node-IsAccounted

allocated_told_ready_example : 0 < told (found "a" after_day).id tells_ready after_day.effects
allocated_told_ready_example =
    allocated_told_ready node day "a" (found "a" after_day) node-IsAccounted listed_a state_a

abbrev shut_down : List Event
shut_down = on "a" (see_exits (exited 0) 7) ∷ on "b" (see_exits (exited 1) 8) ∷ []

all_done_frees_ports_node : (run node (day ++ shut_down)).pool.in_use ≡ []
unfolding run local Ports.acquire Ports.release to new_machine_at
all_done_frees_ports_node =
    all_done_frees_ports node (day ++ shut_down) node-Inv ((λ e. cc), ((λ e. cc), tt))

start_idempotent_node :
    start (start node (cmd "a") (95, 100) 1) (cmd "a") (10, 100) 2
    ≡ start node (cmd "a") (95, 100) 1
start_idempotent_node = start_idempotent node (cmd "a") (cmd "a") (95, 100) (10, 100) 1 2 refl

start-Started_example : Started node "a" failed (start node (cmd "a") (95, 100) 1)
unfolding is_disk_full
start-Started_example = start-Started node (cmd "a") (95, 100) 1 (ne_of_beq "a" "" refl) refl

abbrev unguarded : Manager
unguarded = record node { config = record config { disk_full_watermark_pct = 0 } }

watermark_zero_refuses_node : Started unguarded "a" failed (start unguarded (cmd "a") (0, 100) 1)
watermark_zero_refuses_node =
    watermark_zero_refuses unguarded (cmd "a") 0 100 1 refl (omega arith) (ne_of_beq "a" "" refl)
      refl

abbrev survivor : RestoredServer
survivor = record {
  id = "c";
  port = 7001;
  image_ref = "game:1";
  state = "allocated";
  match_id = "m";
  running = true;
  exit_code = 0;
  scope_project = "arena";
  scope_env = "";
}

restore_one-Inv_node : Inv (restore_one node survivor true)
unfolding Ports.acquire_specific
restore_one-Inv_node = restore_one-Inv node survivor true node-Inv refl (λ e. refl)

server_scope-Scoped_example : Scoped owner (server_scope owner)
server_scope-Scoped_example = server_scope-Scoped owner

half_pair : server_scope (("BIRDMAN_PROJECT", "arena") ∷ ("BIRDMAN_ENV", "../prod") ∷ []) ≡ ("", "")
unfolding server_scope
half_pair = refl

abbrev store : Images
store = record { images = "game:1" ∷ "game:2" ∷ []; used = "game:1" ∷ []; guarded = "game:2" ∷ [] }

abbrev no_faults : Faults
no_faults = record { on_used = none; on_present = none; on_delete = none }

removes : (remove_image store no_faults "c" "game:2").0.images ≡ "game:1" ∷ []
unfolding remove_image
removes = refl

remove_image-Means_example :
    (r : Report) × ((remove_image store no_faults "c" "game:1").1 ≡ r ∷ [])
    × (r.cmd_id ≡ "c")
    × (r.image_ref ≡ "game:1")
    × Means store "game:1" (remove_image store no_faults "c" "game:1").0 r.status
remove_image-Means_example = remove_image-Means store no_faults "c" "game:1"

abbrev creds : List RegistryCred
creds = record { host = codes "GHCR.io"; username = "bot"; token = "t" } ∷ []

resolves :
    resolve_registry_auth (set_registries [] creds) none (codes "ghcr.io") ≡ from_master "bot" "t"
unfolding resolve_registry_auth set_registries
resolves = refl

resolve_registry_auth-Allowed_example :
    Allowed creds none
      (codes "evil.example")
      (resolve_registry_auth (set_registries [] creds) none (codes "evil.example"))
resolve_registry_auth-Allowed_example =
    resolve_registry_auth-Allowed [] creds none (codes "evil.example")
