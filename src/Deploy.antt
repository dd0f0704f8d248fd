-- ===== src/Deploy.antt =====
-- The deploy manager (master/internal/deploy/manager.go): the jobs in flight, the pull reports, the
-- completion of a deploy and the chain of automatic deploys. A step is what a goroutine does under
-- `mu`, or between two uses of `mu` up to an answer of the store; what it does next is a `Task`. The
-- store is a `World`: what its queries and transactions answer at a step. What the methods return
-- to their callers and the time of a deploy are left out.
pub mod Jobs
pub mod Marker
pub mod Forward
pub mod Warm
pub mod Reports
pub mod Activation
mod Runs
use birdman.Base.{
  Bool, Eq, List, Option, String, Text, [], arith, codes, false, if◌then◌else◌, insert, lookup, ltb,
  nat_eq, none, some, string_eq, suc, true, zero, ℕ, ◌&&◌, ◌==◌, ◌||◌, ◌↔◌, ◌∷◌, ◌≡◌,
}

pub record Version : Type 0 where
  pub id : String
  pub project : String
  pub project_id : String
  pub env : String
  pub image_ref : String
  pub created_at : ℕ

pub record CreatedId : Type 0 where
  pub created_at : ℕ
  pub id : String

-- Go's order of strings, on their code points.
abbrev pub text_ltb : Text → Text → Bool
text_ltb [] [] = false
text_ltb [] (d ∷ ds) = true
text_ltb (c ∷ cs) [] = false
text_ltb (c ∷ cs) (d ∷ ds) = ltb c d || (c == d && text_ltb cs ds)

unfoldable pub newer_than : ℕ → String → CreatedId → Bool
newer_than created id mk =
    ltb mk.created_at created || (created == mk.created_at && text_ltb (codes mk.id) (codes id))

-- What the manager hears and does, beside its queries: what the store answered on the nodes to pull,
-- the fan-out as it is registered, with all its nodes, and a report as a job takes it.
pub data Effect : Type 0 where
  found fans_out : String → List String → Effect
  heard node_pulled : String → String → Effect
  no_nodes activated aborted rolled_back : String → Effect
  cleans : List String → Effect

-- A job whose timer is armed: it is stopped when the job leaves the map.
pub record Job : Type 0 where
  pub version : Version
  pub pending : List String

abbrev pub ProjectEnv : Type 0
ProjectEnv = String × String

abbrev pub pair_beq : ProjectEnv → ProjectEnv → Bool
pair_beq (p, e) (q, f) = string_eq.beq p q && string_eq.beq e f

pub pair_beq_iff : (a b : ProjectEnv) → (pair_beq a b ≡ true) ↔ (a ≡ b)
pair_beq_iff (p, e) (q, f) = ground (arith, string_eq.beq_iff p q, string_eq.beq_iff e f)

instance abbrev pub pair_eq : Eq ProjectEnv
pair_eq = record { beq = pair_beq; beq_iff = pair_beq_iff }

-- What follows a recorded attempt.
pub data After : Type 0 where
  ends adopts starts_job : After

-- Where a goroutine stands.
pub data Task : Type 0 where
  looks : ProjectEnv → Task
  reads : ProjectEnv → String → Task
  picks : ProjectEnv → String → CreatedId → Task
  begins : String → Task
  attempts : Version → After → Task
  checks starts flips fails : Version → Task
  arms : Version → List String → Task
  notes : String → Version → Bool → Task
  rechecks : String → Task

-- `effects` is what happened so far, the newest first; `tasks` are the goroutines under way.
pub record Manager : Type 0 where
  pub jobs : List (String × Job)
  pub last_attempted : List (ProjectEnv × CreatedId)
  pub tasks : List Task
  pub effects : List Effect

unfoldable pub new_manager : Manager
new_manager = record { jobs = []; last_attempted = []; tasks = []; effects = [] }

abbrev pub emit : Manager → Effect → Manager
emit m e = record m { effects = e ∷ m.effects }

abbrev pub spawn : Manager → Task → Manager
spawn m t = record m { tasks = t ∷ m.tasks }

-- A key that is missing reads as the zero value.
abbrev pub marker : Manager → ProjectEnv → CreatedId
marker m pe = elim (lookup pe m.last_attempted) [
  | none ↦ record { created_at = 0; id = "" }
  | some mk ↦ mk
]

unfoldable pub record_attempt : Manager → Version → Manager
record_attempt m v =
    let pe : ProjectEnv = (v.project, v.env) in
    if string_eq.beq v.id ""
    then m
    else if newer_than v.created_at v.id (marker m pe)
    then record m {
      last_attempted = insert pe (record { created_at = v.created_at; id = v.id }) m.last_attempted;
    }
    else m

-- The answers of the store's `BeginDeploy`.
pub data Begun : Type 0 where
  already_active already_prepulling begun : Version → Begun
  in_progress no_fleet begin_error : Begun

pub record World : Type 0 where
  pub begin_deploy : String → Begun
  pub prepull_targets : String → String → Option (List String)  -- none is an error
  pub activate_version : String → String → Option (List String)  -- the versions it disables
  pub auto_project : ProjectEnv → Option String  -- the project's id, if the environment deploys itself
  pub newest_registered_after : String → String → CreatedId → Option Version
  pub count_registered_between : String → String → CreatedId → CreatedId → Option ℕ
  pub prepulling_version : String → Option Version  -- none if it is no more prepulling
  pub rollback_target : ProjectEnv → Option Version

abbrev pub has_job : Manager → String → Bool
has_job m id = elim (lookup id m.jobs) [ none ↦ false | some j ↦ true ]

unfoldable pub cleanup_disabled : Manager → List String → Manager
cleanup_disabled m [] = m
cleanup_disabled m (d ∷ ds) = emit m (cleans (d ∷ ds))

-- `activate`, whose completion goes on with the chain of its environment.
unfoldable pub activate : World → Manager → Version → Manager
activate w m v = elim (w.activate_version v.id "prepulling") [
  | none ↦ m
  | some disabled ↦
      spawn (cleanup_disabled (emit m (activated v.id)) disabled) (looks (v.project, v.env))
]

-- `abort`: the store is told, and the chain runs on.
unfoldable pub abort : Manager → Version → Manager
abort m v = spawn (emit m (aborted v.id)) (looks (v.project, v.env))

-- `startJob`, with the store's targets.
unfoldable pub start_job : Manager → Version → List String → Manager
start_job m v [] = spawn (emit (emit m (found v.id [])) (no_nodes v.id)) (flips v)
start_job m v (n ∷ ns) = spawn (emit m (found v.id (n ∷ ns))) (arms v (n ∷ ns))

-- `startJob`, where it registers the job.
unfoldable pub arm : Manager → Version → List String → Manager
arm m v ns =
    let job : Job = record { version = v; pending = ns } in
    emit (record m { jobs = insert v.id job m.jobs }) (fans_out v.id ns)

-- The answer of `BeginDeploy`, in `Deploy` and in `TryAutoDeploy`.
unfoldable pub after_begin : Manager → Begun → Manager
after_begin m in_progress = m
after_begin m no_fleet = m
after_begin m begin_error = m
after_begin m (already_active v) = spawn m (attempts v ends)
after_begin m (already_prepulling v) = spawn m (attempts v adopts)
after_begin m (begun v) = spawn m (attempts v starts_job)

-- `TryAutoDeploy`, with the marker that it has read.
unfoldable pub pick : World → Manager → ProjectEnv → String → CreatedId → Manager
pick w m pe project_id mk = elim (w.newest_registered_after project_id pe.1 mk) [
  | none ↦ m
  | some target ↦
      elim (w.count_registered_between project_id pe.1 mk
        (record { created_at = target.created_at; id = target.id })) [
          | none ↦ m
          | some skipped ↦ spawn m (begins target.id)
        ]
]

-- The next step of a goroutine; the manager no more holds its task.
unfoldable pub proceed : World → Manager → Task → Manager
unfolding record_attempt
proceed w m (looks pe) = elim (w.auto_project pe) [
  | none ↦ m
  | some project_id ↦ spawn m (reads pe project_id)
]
proceed w m (reads pe project_id) = spawn m (picks pe project_id (marker m pe))
proceed w m (picks pe project_id mk) = pick w m pe project_id mk
proceed w m (begins id) = after_begin m (w.begin_deploy id)
proceed w m (attempts v ends) = record_attempt m v
proceed w m (attempts v adopts) = spawn (record_attempt m v) (checks v)
proceed w m (attempts v starts_job) = spawn (record_attempt m v) (starts v)
proceed w m (checks v) = if has_job m v.id then m else spawn m (starts v)
proceed w m (starts v) = elim (w.prepull_targets v.project_id v.env) [
  | none ↦ m
  | some targets ↦ start_job m v targets
]
proceed w m (arms v ns) = arm m v ns
proceed w m (notes node v false) = emit m (node_pulled node v.id)
proceed w m (notes node v true) = spawn (emit m (node_pulled node v.id)) (flips v)
proceed w m (flips v) = activate w m v
proceed w m (fails v) = abort m v
proceed w m (rechecks id) = elim (w.prepulling_version id) [
  | none ↦ m
  | some v ↦ spawn m (starts v)
]

unfoldable pub take_task : ℕ → List Task → Option (Task × List Task)
take_task i [] = none
take_task zero (t ∷ ts) = some (t, ts)
take_task (suc i) (t ∷ ts) = elim (take_task i ts) [ none ↦ none | some (u, us) ↦ some (u, t ∷ us) ]
