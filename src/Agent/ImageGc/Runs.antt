-- ===== src/Agent/ImageGc/Runs.antt =====
-- A pass over three images, and nine refs that are touched.
use birdman.Base.{
  All, List, [], contains, false, if◌then◌else◌, length, ltb, nat_eq, none, refl, some, string_eq,
  true, ◌*◌, ◌∷◌, ◌≡◌, ◌≤◌,
}
use birdman.Agent.ImageGc.{
  Call, Disk, Image, Runtime, above_watermark, candidates, delete_loop, oldest_loop, protected_cap,
  protected_refs, run, run_once, touch, untouch,
}
use birdman.Agent.ImageGc.Passes.{IsRemovable, run_once-IsRemovable}
use birdman.Agent.ImageGc.Recent.{run_bounded}
use birdman.Matchmaker.Groups.{insert_sorted, sort_slice}

abbrev images : List Image
images =
    record { name = "a:3"; updated_at = 30 }
    ∷ record { name = "a:1"; updated_at = 10 }
    ∷ record { name = "a:2"; updated_at = 20 }
    ∷ []

abbrev runtime : Runtime
runtime = record {
  images = some images;
  used_image_refs = some ("a:3" ∷ []);
  delete_image = λ name. true;
}

-- The disk is full at the first two samples.
abbrev disk : Disk
disk = record {
  data_dir = λ k. if ltb k 2 then (90, 100) else (70, 100);
  containerd = none;
  exceeds = λ used total. ltb (8 * total) (10 * used);
}

oldest_goes : run_once disk runtime [] ≡ some ("a:1" ∷ [])
unfolding run_once delete_loop candidates protected_refs above_watermark sort_slice insert_sorted
oldest_goes = refl

run_once-IsRemovable_example : All (IsRemovable images ("a:3" ∷ []) []) ("a:1" ∷ [])
run_once-IsRemovable_example =
    run_once-IsRemovable disk runtime [] images ("a:3" ∷ []) ("a:1" ∷ []) refl refl oldest_goes

abbrev calls : List Call
calls =
    Call.touches 1 "a"
    ∷ Call.touches 2 "b"
    ∷ Call.touches 3 "c"
    ∷ Call.touches 4 "d"
    ∷ Call.touches 5 "e"
    ∷ Call.touches 6 "f"
    ∷ Call.touches 7 "g"
    ∷ Call.touches 8 "h"
    ∷ Call.touches 9 "i"
    ∷ Call.untouches "c"
    ∷ []

a_is_forgotten : contains "a" (protected_refs (run [] calls)) ≡ false
unfolding run touch untouch oldest_loop protected_refs
a_is_forgotten = refl

run_bounded_example : length (run [] calls) ≤ protected_cap
run_bounded_example = run_bounded calls
