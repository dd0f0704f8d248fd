-- ===== src/Matchmaker/Groups/Runs.antt =====
-- Groups that are packed at concrete tickets.
use birdman.Base.{List, String, [], arith, false, refl, true, ℕ, ◌↔◌, ◌∷◌, ◌≡◌}
use birdman.Matchmaker.Groups.{
  Qt, QueuePolicy, best_partial, extend, group_seats, grow, insert_sorted, older, pack, pack_loop,
  seats, sort_slice, updates,
}
use birdman.Matchmaker.Groups.Subsets.{Sub, skip, stop, take}
use birdman.Matchmaker.Groups.Answers.{Answers, pack-Answers, pack-full}
use birdman.Matchmaker.Groups.Packing.{pack_serves_oldest}

abbrev ticket : String → ℕ → ℕ → Qt
ticket id created players = record {
  id = id;
  player = id;
  bucket = "1.3";
  game_mode = "";
  version = "1.3.0";
  created = created;
  regions = record { region = "eu"; rtt_ms = 20 } ∷ [];
  players = players;
  payload = "";
  party = true;
}

abbrev policy : QueuePolicy
policy = record {
  project = "p";
  env = "";
  game_mode = "";
  backfill = false;
  minimum_size = 2;
  partial_wait = 30;
  max_rtt_ms = 0;
  expanded_max_rtt_ms = 0;
}

-- Four seats: the oldest party takes three, so that the first party of two must be passed over.
abbrev waiting : List Qt
waiting = ticket "b" 7 2 ∷ ticket "a" 5 3 ∷ ticket "c" 9 1 ∷ []

abbrev sorted : List Qt
sorted = ticket "a" 5 3 ∷ ticket "b" 7 2 ∷ ticket "c" 9 1 ∷ []

sorts : sort_slice older waiting ≡ sorted
unfolding sort_slice insert_sorted
sorts = refl

packs : pack waiting 4 policy 10 ≡ ticket "a" 5 3 ∷ ticket "c" 9 1 ∷ []
unfolding pack pack_loop grow extend updates seats sort_slice insert_sorted best_partial
packs = refl

packs_partial : pack waiting 7 policy 40 ≡ sorted
unfolding pack pack_loop grow extend updates seats sort_slice insert_sorted best_partial
packs_partial = refl

pack-full_example :
    ((s : List Qt) × Sub s (sort_slice older waiting) × (group_seats s ≡ 4))
    ↔ (group_seats (pack waiting 4 policy 10) ≡ 4)
pack-full_example = pack-full waiting 4 policy 10 (omega arith)

pack-Answers_example : Answers 7 40 policy (sort_slice older waiting) (pack waiting 7 policy 40)
pack-Answers_example = pack-Answers waiting 7 policy 40

four : group_seats (ticket "a" 5 3 ∷ ticket "c" 9 1 ∷ []) ≡ 4
unfolding group_seats seats
four = refl

pack_serves_oldest_example :
    (s' : List Qt) × (pack waiting 4 policy 10 ≡ ticket "a" 5 3 ∷ s')
    × (group_seats (pack waiting 4 policy 10) ≡ 4)
pack_serves_oldest_example =
    pack_serves_oldest waiting 4 policy 10 (ticket "a" 5 3) (ticket "b" 7 2 ∷ ticket "c" 9 1 ∷ [])
      (ticket "c" 9 1 ∷ []) sorts (skip (take stop)) four
