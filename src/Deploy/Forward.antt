-- ===== src/Deploy/Forward.antt =====
-- Over every order of the steps a version that was attempted stays behind.
use birdman.Base.{List, String, [], some, true, ℕ, ◌∷◌, ◌≡◌}
use birdman.Deploy.{
  Begun, CreatedId, Version, World, already_active, already_prepulling, begin_error, begun,
  in_progress, newer_than, no_fleet,
}
use birdman.Deploy.Jobs.{Event, proceeds}

-- A store that answers the chain only with versions that are newer than its marker.
abbrev pub AnswersNewer : World → Type 0
AnswersNewer w =
    (project_id env : String) (mk : CreatedId) (v : Version)
    → w.newest_registered_after project_id env mk ≡ some v
    → newer_than v.created_at v.id mk ≡ true

-- The answers by which `BeginDeploy` has begun a deploy of `v`, or found one.
abbrev pub Begins : Begun → Version → Type 0
Begins (already_active v) u = v ≡ u
Begins (already_prepulling v) u = v ≡ u
Begins (begun v) u = v ≡ u
Begins in_progress u = ⊥
Begins no_fleet u = ⊥
Begins begin_error u = ⊥

-- The two steps in which a goroutine that is about to call `BeginDeploy` for `id` does so and then
-- records the attempt.
abbrev pub begin_steps : ℕ → World → World → List (Event × World)
begin_steps i w w' = (proceeds i, w) ∷ (proceeds 0, w') ∷ []
