-- ===== src/Deploy/Jobs.antt =====
-- The commands of the deploy manager, the agents' pull reports and the timeouts, and every order in
-- which these and the goroutines come. The loops of `SweepOrphans` and `Resume` start their rounds
-- one after the other; here the rounds may also overlap.
use birdman.Base.{
  Bool, List, Option, String, [], contains, delete, erase_all, false, if◌then◌else◌, insert, lookup,
  nat_eq, none, some, string_eq, true, ℕ, ◌&&◌, ◌∷◌,
}
use birdman.Deploy.{
  CreatedId, Job, Manager, ProjectEnv, Version, World, begins, cleanup_disabled, emit, fails,
  has_job, heard, looks, no_nodes, notes, pair_eq, proceed, rechecks, rolled_back, spawn, starts,
  take_task,
}

-- `expire`, up to the call of `abort`.
unfoldable pub expire : Manager → String → Manager
expire m id = elim (lookup id m.jobs) [
  | none ↦ m
  | some j ↦ spawn (record m { jobs = delete id m.jobs }) (fails j.version)
]

-- The loop of `HandlePullReport` over the keys of the map, in some order.
unfoldable pub find_job :
    String → String → List (String × Job) → List (String × Job) → Option (String × Job)
find_job ref node all [] = none
find_job ref node all ((id, entry) ∷ rest) =
    let later = find_job ref node all rest in
    elim (lookup id all) [
      | none ↦ later
      | some j ↦
          if string_eq.beq j.version.image_ref ref && contains node j.pending
          then some (id, j)
          else later
    ]

-- A `pulled` report of a node that the job `j` waits for, under `mu`.
unfoldable pub note_pulled : Manager → String → String → Job → Manager
note_pulled m node id j =
    let left = erase_all node j.pending in
    elim left [
      | [] ↦
          spawn (emit (record m { jobs = delete id m.jobs }) (heard node id))
            (notes node j.version true)
      | n ∷ ns ↦
          spawn
            (emit (record m { jobs = insert id (record j { pending = n ∷ ns }) m.jobs })
              (heard node id))
            (notes node j.version false)
    ]

pub data PullStatus : Type 0 where
  pulled pull_failed other_status : PullStatus

-- `HandlePullReport`, up to the release of `mu`.
unfoldable pub handle_pull_report : Manager → String → String → PullStatus → Manager
unfolding find_job note_pulled
handle_pull_report m node ref other_status = m
handle_pull_report m node ref pulled = elim (find_job ref node m.jobs m.jobs) [
  | none ↦ m
  | some (id, j) ↦ note_pulled m node id j
]
handle_pull_report m node ref pull_failed = elim (find_job ref node m.jobs m.jobs) [
  | none ↦ m
  | some (id, j) ↦ spawn (record m { jobs = delete id m.jobs }) (fails j.version)
]

-- The round of `SweepOrphans` for a version that the store gave as prepulling.
unfoldable pub sweep_orphan : Manager → String → Manager
sweep_orphan m id = if has_job m id then m else spawn m (rechecks id)

-- `noNodesWarning`: an error warns of nothing.
unfoldable pub no_nodes_warning : World → String → String → Bool
no_nodes_warning w project_id env = elim (w.prepull_targets project_id env) [
  | none ↦ false
  | some targets ↦ elim targets [ [] ↦ true | n ∷ ns ↦ false ]
]

-- `Rollback`, which uses nothing that `mu` guards.
unfoldable pub rollback : World → Manager → ProjectEnv → Manager
unfolding cleanup_disabled no_nodes_warning
rollback w m pe = elim (w.rollback_target pe) [
  | none ↦ m
  | some target ↦
      let warns = no_nodes_warning w target.project_id target.env in
      elim (w.activate_version target.id "deprecated") [
        | none ↦ m
        | some disabled ↦
            let flipped = emit m (rolled_back target.id) in
            cleanup_disabled (if warns then emit flipped (no_nodes target.id) else flipped) disabled
      ]
]

pub data Event : Type 0 where
  deploys expires sweeps : String → Event
  reports : String → String → PullStatus → Event
  tries rolls_back : ProjectEnv → Event
  proceeds : ℕ → Event

unfoldable pub step : Manager → Event × World → Manager
unfolding expire handle_pull_report sweep_orphan rollback proceed take_task
step m (deploys id, w) = spawn m (begins id)
step m (expires id, w) = expire m id
step m (reports node ref status, w) = handle_pull_report m node ref status
step m (tries pe, w) = spawn m (looks pe)
step m (sweeps id, w) = sweep_orphan m id
step m (rolls_back pe, w) = rollback w m pe
step m (proceeds i, w) = elim (take_task i m.tasks) [
  | none ↦ m
  | some (t, ts) ↦ proceed w (record m { tasks = ts }) t
]

unfoldable pub run : Manager → List (Event × World) → Manager
unfolding step
run m [] = m
run m (e ∷ es) = run (step m e) es

-- `Resume`: the markers of the environments that deploy themselves, from the store's events; then
-- the jobs of the versions that are prepulling and a round of each chain.
unfoldable pub restore_markers : Manager → List (ProjectEnv × Option CreatedId) → Manager
restore_markers m [] = m
restore_markers m ((pe, mk) ∷ rest) =
    let m' : Manager = elim mk [
      | none ↦ m
      | some newest ↦ record m { last_attempted = insert ⦃e = pair_eq⦄ pe newest m.last_attempted }
    ] in
    restore_markers m' rest

unfoldable pub start_all : Manager → List Version → Manager
start_all m [] = m
start_all m (v ∷ vs) = start_all (spawn m (starts v)) vs

unfoldable pub look_all : Manager → List (ProjectEnv × Option CreatedId) → Manager
look_all m [] = m
look_all m ((pe, mk) ∷ rest) = look_all (spawn m (looks pe)) rest

unfoldable pub resume : Manager → List (ProjectEnv × Option CreatedId) → List Version → Manager
unfolding restore_markers start_all look_all
resume m envs versions = look_all (start_all (restore_markers m envs) versions) envs
