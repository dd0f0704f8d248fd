-- ===== src/Matchmaker/Regions/Runs.antt =====
-- Regions and policies at concrete inputs.
use birdman.Base.{String, [], negsuc, none, pos, refl, some, ℕ, ◌∷◌, ◌≡◌}
use birdman.Matchmaker.Groups.{insert_sorted, sort_slice}
use birdman.Matchmaker.Regions.{RawPing, best_rtts, keep_best, normalize_regions}

abbrev ping : String → ℕ → RawPing
ping region rtt = record { region = region; rtt_ms = pos rtt }

sorts :
    normalize_regions (ping "us" 90 ∷ ping "eu" 40 ∷ ping "us" 30 ∷ [])
    ≡ some (record { region = "us"; rtt_ms = 30 } ∷ record { region = "eu"; rtt_ms = 40 } ∷ [])
unfolding normalize_regions best_rtts keep_best sort_slice insert_sorted
sorts = refl

refuses_negative : normalize_regions (record { region = "us"; rtt_ms = negsuc 0 } ∷ []) ≡ none
unfolding normalize_regions best_rtts
refuses_negative = refl
