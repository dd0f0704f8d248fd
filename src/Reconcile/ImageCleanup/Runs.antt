-- ===== src/Reconcile/ImageCleanup/Runs.antt =====
-- Rounds and sweeps over a fleet of two nodes.
use birdman.Base.{
  All, List, String, [], if◌then◌else◌, length, nat_eq, refl, some, string_eq, true, ◌∷◌, ◌≡◌,
}
use birdman.Reconcile.ImageCleanup.{
  DisabledVersion, Effect, RefGroup, World, expect, expect_nodes, expect_ref, group_by_ref,
  group_loop, handle_image_report, hear, hear_loop, hear_report, new_image_cleaner, offline, place,
  settle, sweep_group, sweep_images, sweep_loop, targets,
}
use birdman.Reconcile.ImageCleanup.Rounds.{
  Event, History, RoundConfirmed, after, handle_image_report-confirmed, marked_in,
}
use birdman.Reconcile.ImageCleanup.Grouping.{IsPlain}
use birdman.Reconcile.ImageCleanup.Sweeping.{IsAllowed, sweep_images-IsAllowed, total, with_ref}

abbrev group : RefGroup
group = record {
  project_id = "p";
  env = "prod";
  image_ref = "r:1";
  semver = "1.0.0";
  version_ids = "v1" ∷ "v2" ∷ [];
}

-- The first node's first answer is that a container still uses the image; a second round follows.
abbrev history : History
history =
    Event.reported "n1" "r:1" "absent"
    ∷ Event.expected group ("n1" ∷ "n2" ∷ [])
    ∷ Event.reported "n1" "r:1" "busy"
    ∷ Event.expected group ("n1" ∷ "n2" ∷ [])
    ∷ []

abbrev ref_of : String → String
ref_of v = "r:1"

marks :
    (handle_image_report "n2" "r:1" "removed" (after history)).1
    ≡ Effect.count "removed" ∷ Effect.mark ("v1" ∷ "v2" ∷ []) ∷ []
unfolding handle_image_report hear_report hear_loop hear settle after expect expect_nodes expect_ref
marks = refl

marked : marked_in "v2" (handle_image_report "n2" "r:1" "removed" (after history)).1 ≡ true
unfolding marked_in
marked = rw marks refl

handle_image_report-confirmed_example :
    RoundConfirmed "v2" "r:1" history (Event.reported "n2" "r:1" "removed" ∷ history)
handle_image_report-confirmed_example =
    handle_image_report-confirmed ref_of history "n2" "r:1" "removed" "v2"
      ((λ v c. refl), ((λ v c. refl), tt)) marked

-- The ref "r:2" is still in use, and the environment "old" has no node.
abbrev world : World
world = record {
  image_ref_in_use = λ project env ref. some (string_eq.beq ref "r:2");
  env_node_ids =
      λ project env. if string_eq.beq env "old" then some [] else some ("n1" ∷ "n2" ∷ []);
  mark_image_cleanup_sent = λ vs. true;
  has_session = λ n. true;
}

abbrev retired : String → String → String → DisabledVersion
retired id env ref = record {
  version_id = id;
  project_id = "p";
  env = env;
  image_ref = ref;
  semver = "1.0.0";
}

abbrev disabled : List DisabledVersion
disabled =
    retired "v1" "prod" "r:1"
    ∷ retired "v3" "prod" "r:2"
    ∷ retired "v2" "prod" "r:1"
    ∷ retired "v4" "old" "r:1"
    ∷ retired "v5" "prod" ""
    ∷ []

sweeps :
    (sweep_images world new_image_cleaner disabled).effects
    ≡ Effect.send "n1" "r:1" ∷ Effect.send "n2" "r:1" ∷ Effect.mark ("v4" ∷ []) ∷ []
unfolding sweep_images sweep_loop sweep_group group_by_ref group_loop place targets offline expect
sweeps = refl

plain : All IsPlain disabled
plain = ((refl, refl), ((refl, refl), ((refl, refl), ((refl, refl), ((refl, refl), tt)))))

sweep_images-IsAllowed_example :
    let s = sweep_images world new_image_cleaner disabled in
    All (IsAllowed disabled world) s.effects
    × (s.ok ≡ true → total s.result ≡ length (with_ref disabled))
sweep_images-IsAllowed_example = sweep_images-IsAllowed world new_image_cleaner disabled plain
