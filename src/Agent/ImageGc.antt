-- ===== src/Agent/ImageGc.antt =====
-- The collector of unused images on a node (agent/internal/imagegc/imagegc.go). The mutex makes each
-- method one step. The runtime, the disk's usage and the comparison of floats are arguments: the
-- usage is sampled once per test, so the sample that a test reads is counted.
pub mod Passes
pub mod Recent
mod Runs
use birdman.Base.{
  Bool, List, Option, String, [], contains, delete, false, if◌then◌else◌, insert, keep_if, leb,
  length, ltb, nat_eq, none, not, some, string_eq, ℕ, ◌+◌, ◌==◌, ◌||◌, ◌∷◌,
}
use birdman.Matchmaker.Groups.{sort_slice}

abbrev pub protected_cap : ℕ
protected_cap = 8

-- `UpdatedAt` counts from some epoch.
pub record Image : Type 0 where
  pub name : String
  pub updated_at : ℕ

-- The answers of `Runtime`: `none` is an error; `delete_image` is whether the deletion succeeds.
pub record Runtime : Type 0 where
  pub images : Option (List Image)
  pub used_image_refs : Option (List String)
  pub delete_image : String → Bool

-- The usage of the two file systems at the k-th sample, the second of which may not be configured,
-- and whether a usage is above the watermark.
pub record Disk : Type 0 where
  pub data_dir : ℕ → ℕ × ℕ
  pub containerd : Option (ℕ → ℕ × ℕ)
  pub exceeds : ℕ → ℕ → Bool

-- Keys of `touched` with the time of their last use.
abbrev pub Touched : Type 0
Touched = List (String × ℕ)

-- The loop of `Touch` that looks for the oldest ref.
unfoldable pub oldest_loop : String × ℕ → Touched → String × ℕ
oldest_loop best [] = best
oldest_loop best ((r, at) ∷ more) =
    oldest_loop (if string_eq.beq best.0 "" || ltb at best.1 then (r, at) else best) more

unfoldable pub touch : ℕ → String → Touched → Touched
unfolding oldest_loop
touch now ref touched =
    let marked = insert ref now touched in
    if string_eq.beq ref ""
    then touched
    else if leb (length marked) protected_cap
    then marked
    else delete (oldest_loop ("", 0) marked).0 marked

unfoldable pub untouch : String → Touched → Touched
untouch ref touched = if string_eq.beq ref "" then touched else delete ref touched

unfoldable pub protected_refs : Touched → List String
protected_refs [] = []
protected_refs ((r, at) ∷ more) = r ∷ protected_refs more

abbrev above : Disk → ℕ × ℕ → Bool
above d (used, total) = if total == 0 then false else d.exceeds used total

unfoldable pub above_watermark : Disk → ℕ → Bool
above_watermark d k =
    above d (d.data_dir k) || elim d.containerd [ none ↦ false | some usage ↦ above d (usage k) ]

unfoldable pub candidates : List String → List String → List Image → List Image
candidates used protected images =
    keep_if (λ img. not (contains img.name used || contains img.name protected)) images

-- The loop of `RunOnce`, from the k-th sample.
unfoldable pub delete_loop : Disk → (String → Bool) → ℕ → List Image → List String
unfolding above_watermark
delete_loop d delete_image k [] = []
delete_loop d delete_image k (img ∷ more) =
    let rest = delete_loop d delete_image (k + 1) more in
    if not (above_watermark d k)
    then []
    else if delete_image img.name
    then img.name ∷ rest
    else rest

-- The deleted refs; `none` is an error.
unfoldable pub run_once : Disk → Runtime → Touched → Option (List String)
unfolding delete_loop candidates protected_refs
run_once d rt touched = if not (above_watermark d 0) then some [] else elim rt.images [
  | none ↦ none
  | some images ↦ elim rt.used_image_refs [
    | none ↦ none
    | some used ↦ some (
        delete_loop d rt.delete_image 1 (
          sort_slice (λ a b. ltb a.updated_at b.updated_at)
            (candidates used (protected_refs touched) images)))
  ]
]

pub data Call : Type 0 where
  touches : ℕ → String → Call
  untouches : String → Call

unfoldable pub run : Touched → List Call → Touched
unfolding touch untouch
run t [] = t
run t (touches now ref ∷ cs) = run (touch now ref t) cs
run t (untouches ref ∷ cs) = run (untouch ref t) cs
