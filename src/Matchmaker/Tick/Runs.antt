-- ===== src/Matchmaker/Tick/Runs.antt =====
-- Regions and groups at concrete tickets.
use birdman.Base.{
  All, List, String, [], arith, contains, false, get_elem?, ltb, nat_eq, negsuc, pos, refl, some,
  string_eq, true, ℕ, ◌*◌, ◌+◌, ◌<◌, ◌^◌, ◌↔◌, ◌∷◌, ◌≡◌, ◌≢◌, ◌≤◌, ◌⊎◌,
}
use birdman.Matchmaker.Groups.{
  Qt, QueuePolicy, RegionPing, best_partial, extend, group_seats, grow, insert_sorted, pack,
  pack_loop, seats, sort_slice, updates,
}
use birdman.Matchmaker.Tick.{
  Best, add_int32, among_first, best_group, best_loop, better, consider, eligible_for, has_parties,
  may_play, median_of, median_rtt, offer, open_list, open_regions, rtt_limit, sample, samples,
  score, worst_in, worst_rtt,
}
use birdman.Matchmaker.Tick.Widening.{eligible_for_lem}
use birdman.Matchmaker.Tick.Choice.{IsOpen, best_group-largest}
use birdman.Matchmaker.Tick.Overflow.{median_rtt-overflow}

abbrev solo : String → ℕ → List RegionPing → Qt
solo id created regions = record {
  id = id;
  player = id;
  bucket = "1.3";
  game_mode = "";
  version = "1.3.0";
  created = created;
  regions = regions;
  players = 1;
  payload = "";
  party = false;
}

abbrev policy : QueuePolicy
policy = record {
  project = "p";
  env = "";
  game_mode = "";
  backfill = false;
  minimum_size = 0;
  partial_wait = 0;
  max_rtt_ms = 100;
  expanded_max_rtt_ms = 0;
}

abbrev near_eu : List RegionPing
near_eu = record { region = "eu"; rtt_ms = 20 } ∷ record { region = "us"; rtt_ms = 90 } ∷ []

abbrev near_us : List RegionPing
near_us = record { region = "us"; rtt_ms = 30 } ∷ record { region = "eu"; rtt_ms = 80 } ∷ []

eligible_for_lem_example : (eligible_for (solo "a" 5 near_eu) "us" 10 16 ≡ true) ↔ (
    (i : ℕ) × (r : RegionPing) × (get_elem? near_eu i ≡ some r)
    × (r.region ≡ "us")
    × (5 + i * 10 ≤ 16))
eligible_for_lem_example =
    eligible_for_lem (solo "a" 5 near_eu) "us" 10 16 (omega arith) (omega arith)

opens_us : eligible_for (solo "a" 5 near_eu) "us" 10 16 ≡ true
unfolding eligible_for open_regions among_first
opens_us = refl

abbrev pool : List Qt
pool = solo "a" 5 near_eu ∷ solo "b" 6 near_us ∷ []

takes_eu : best_group pool 2 ("us" ∷ "eu" ∷ []) [] 10 20 policy ≡ ("eu", pool)
unfolding best_group best_loop consider better score offer has_parties open_list may_play pack
    pack_loop grow extend updates seats sort_slice insert_sorted best_partial eligible_for
    open_regions among_first worst_rtt worst_in median_rtt median_of samples sample add_int32
    rtt_limit group_seats
takes_eu = refl

best_group-largest_example :
    let best = best_group pool 2 ("us" ∷ "eu" ∷ []) ("us" ∷ []) 10 20 policy in
    (((best.0 ≡ "") × (best.1 ≡ []))
      ⊎ ((best.0 ≢ "")
          × IsOpen ("us" ∷ "eu" ∷ []) ("us" ∷ []) best.0
          × (best.1 ≡ offer pool 2 10 20 policy best.0)
          × (best.1 ≢ [])))
    × All
        (λ r.
          (contains r ("us" ∷ []) ≡ true)
          ⊎ (group_seats (offer pool 2 10 20 policy r) ≤ group_seats best.1))
        ("us" ∷ "eu" ∷ [])
best_group-largest_example =
    best_group-largest pool 2 ("us" ∷ "eu" ∷ []) ("us" ∷ []) 10 20 policy
      ((λ e. absurd (cc)), ((λ e. absurd (cc)), tt))

abbrev far : List RegionPing
far = record { region = "eu"; rtt_ms = 2000000000 } ∷ []

far-sample : sample far "eu" ≡ some 2000000000
unfolding sample
far-sample = refl

abbrev so_far : Best
so_far = record { region = "us"; group = pool; median = pos 60 }

same : group_seats (solo "c" 5 far ∷ solo "d" 6 far ∷ []) ≡ group_seats pool
unfolding group_seats seats
same = refl

median_rtt-overflow_example :
    let two = solo "c" 5 far ∷ solo "d" 6 far ∷ [] in
    ((4000000000 < 2 ^ 31)
      × (median_rtt two "eu" ≡ pos 4000000000)
      × (better false so_far two (median_rtt two "eu") ≡ ltb 4000000000 60))
    ⊎ ((2 ^ 31 ≤ 4000000000)
        × (median_rtt two "eu" ≡ negsuc 294967295)
        × (better false so_far two (median_rtt two "eu") ≡ true))
median_rtt-overflow_example =
    median_rtt-overflow (solo "c" 5 far) (solo "d" 6 far) "eu" 2000000000 2000000000 so_far 60
      far-sample far-sample refl (λ e. absurd (cc)) same
