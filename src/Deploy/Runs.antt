-- ===== src/Deploy/Runs.antt =====
-- The deploy manager at concrete inputs.
use birdman.Base.{List, [], if◌then◌else◌, nat_eq, none, refl, some, string_eq, ◌∷◌, ◌≡◌}
use birdman.Deploy.{
  Manager, Version, World, activate, activated, after_begin, arm, begins, begun, cleans,
  cleanup_disabled, fans_out, found, heard, new_manager, newer_than, node_pulled, pick, proceed,
  record_attempt, start_job, take_task,
}
use birdman.Deploy.Jobs.{
  Event, find_job, handle_pull_report, note_pulled, proceeds, pulled, reports, run, step, tries,
}

abbrev build : Version
build = record {
  id = "v2";
  project = "arena";
  project_id = "p1";
  env = "dev";
  image_ref = "game:2";
  created_at = 20;
}

-- A store with one newer version, which two nodes have to pull.
abbrev world : World
world = record {
  begin_deploy = λ id. begun build;
  prepull_targets = λ p e. some ("n1" ∷ "n2" ∷ []);
  activate_version = λ id from. some ("v0" ∷ []);
  auto_project = λ pe. some "p1";
  newest_registered_after = λ p e mk. if newer_than 20 "v2" mk then some build else none;
  count_registered_between = λ p e from to. some 0;
  prepulling_version = λ id. some build;
  rollback_target = λ pe. none;
}

abbrev next_task : Event × World
next_task = (proceeds 0, world)

-- The chain finds the version and begins its deploy; then the two nodes report.
abbrev rollout : List (Event × World)
rollout =
    (tries ("arena", "dev"), world)
    ∷ next_task
    ∷ next_task
    ∷ next_task
    ∷ next_task
    ∷ next_task
    ∷ next_task
    ∷ next_task
    ∷ (reports "n1" "game:2" pulled, world)
    ∷ (reports "n1" "game:2" pulled, world)
    ∷ (reports "n2" "game:2" pulled, world)
    ∷ next_task
    ∷ next_task
    ∷ next_task
    ∷ []

rolls_out :
    (run new_manager rollout).effects
    ≡ cleans ("v0" ∷ [])
      ∷ activated "v2"
      ∷ node_pulled "n2" "v2"
      ∷ heard "n2" "v2"
      ∷ heard "n1" "v2"
      ∷ fans_out "v2" ("n1" ∷ "n2" ∷ [])
      ∷ found "v2" ("n1" ∷ "n2" ∷ [])
      ∷ []
unfolding run new_manager newer_than step proceed take_task pick after_begin start_job arm activate
    cleanup_disabled record_attempt handle_pull_report find_job note_pulled
rolls_out = refl

abbrev asked : Manager
asked = record { jobs = []; last_attempted = []; tasks = begins "v2" ∷ []; effects = [] }
