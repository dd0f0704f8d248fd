-- ===== src/Matchmaker/Tick.antt =====
-- Which region and which group a tick of the matchmaker takes next (`bestGroup` and what it calls,
-- master/internal/matchmaker/tick.go; `worstRTT` of party.go). Scores are float64 in the source and
-- multiples of 1/2 below 2^32, which it holds exactly: here they are twice as large and integers.
pub mod Widening
pub mod Choice
pub mod Overflow
mod Runs
use birdman.Base.{
  Bool, List, Option, String, [], contains, false, get_or, if◌then◌else◌, keep_if, leb, length, ltb,
  max, nat_eq, negsuc, none, not, pos, some, string_eq, suc, true, zero, ℕ, ℤ, ◌%◌, ◌&&◌, ◌*◌, ◌+◌,
  ◌-◌, ◌/◌, ◌==◌, ◌^◌, ◌||◌, ◌∷◌,
}
use birdman.Matchmaker.Groups.{Qt, QueuePolicy, RegionPing, group_seats, pack, sort_slice, str_ltb}

-- The number of regions that are open to a ticket; `int(d / widen)` truncates towards zero.
unfoldable pub open_regions : ℕ → ℕ → ℕ → ℕ
open_regions created widen now =
    if leb created now then 1 + (now - created) / widen else 1 - (created - now) / widen

-- The loop of `eligibleFor` over the regions that are left.
unfoldable pub among_first : ℕ → List RegionPing → String → Bool
among_first k [] region = false
among_first zero (r ∷ rs) region = false
among_first (suc k) (r ∷ rs) region =
    let rest = among_first k rs region in if string_eq.beq r.region region then true else rest

unfoldable pub eligible_for : Qt → String → ℕ → ℕ → Bool
unfolding open_regions among_first
eligible_for t region widen now = among_first (open_regions t.created widen now) t.regions region

unfoldable pub worst_in : ℕ → List RegionPing → String → ℕ
worst_in worst [] region = worst
worst_in worst (r ∷ rs) region =
    worst_in (if string_eq.beq r.region region then max worst r.rtt_ms else worst) rs region

unfoldable pub worst_rtt : ℕ → List Qt → String → ℕ
unfolding worst_in
worst_rtt worst [] region = worst
worst_rtt worst (t ∷ ts) region = worst_rtt (worst_in worst t.regions region) ts region

-- The first sample of a region.
unfoldable pub sample : List RegionPing → String → Option ℕ
sample [] region = none
sample (r ∷ rs) region =
    let rest = sample rs region in if string_eq.beq r.region region then some r.rtt_ms else rest

unfoldable pub samples : List Qt → String → List ℕ
unfolding sample
samples [] region = []
samples (t ∷ ts) region =
    let rest = samples ts region in
    elim (sample t.regions region) [ none ↦ rest | some n ↦ n ∷ rest ]

-- The sum of two int32 that are not negative.
unfoldable pub add_int32 : ℕ → ℕ → ℤ
add_int32 a b = if ltb (a + b) (2 ^ 31) then pos (a + b) else negsuc (2 ^ 32 - (a + b) - 1)

-- Twice the median.
unfoldable pub median_of : List ℕ → ℤ
unfolding add_int32
median_of [] = pos 0
median_of (x ∷ xs) =
    let rtts = sort_slice ltb (x ∷ xs) in
    let mid = length rtts / 2 in
    if length rtts % 2 == 1
    then pos (2 * get_or rtts mid 0)
    else add_int32 (get_or rtts (mid - 1) 0) (get_or rtts mid 0)

unfoldable pub median_rtt : List Qt → String → ℤ
unfolding median_of samples
median_rtt group region = median_of (samples group region)

abbrev pub ltb_ℤ : ℤ → ℤ → Bool
ltb_ℤ (pos a) (pos b) = ltb a b
ltb_ℤ (pos a) (negsuc b) = false
ltb_ℤ (negsuc a) (pos b) = true
ltb_ℤ (negsuc a) (negsuc b) = ltb b a

-- The round-trip limit of a ticket; 0 is none.
unfoldable pub rtt_limit : QueuePolicy → ℕ → ℕ → Qt → ℕ
rtt_limit policy widen now t =
    if leb widen (now - t.created) && ltb 0 policy.expanded_max_rtt_ms
    then policy.expanded_max_rtt_ms
    else policy.max_rtt_ms

unfoldable pub may_play : QueuePolicy → ℕ → ℕ → String → Qt → Bool
unfolding eligible_for rtt_limit worst_rtt
may_play policy widen now region t =
    let limit = rtt_limit policy widen now t in
    eligible_for t region widen now && (limit == 0 || leb (worst_rtt 0 (t ∷ []) region) limit)

-- The group that one region offers.
unfoldable pub offer : List Qt → ℕ → ℕ → ℕ → QueuePolicy → String → List Qt
unfolding may_play
offer pool size widen now policy region =
    pack (keep_if (may_play policy widen now region) pool) size policy now

unfoldable pub has_parties : List Qt → Bool
has_parties [] = false
has_parties (t ∷ ts) = t.party || has_parties ts

-- `bestRegion`, `bestGroup` and `bestMedian`.
pub record Best : Type 0 where
  pub region : String
  pub group : List Qt
  pub median : ℤ

abbrev created_of : List Qt → ℕ
created_of [] = 0
created_of (t ∷ ts) = t.created

unfoldable pub score : Bool → List Qt → String → ℤ
unfolding worst_rtt median_rtt
score parties group region =
    if parties then pos (2 * worst_rtt 0 group region) else median_rtt group region

unfoldable pub better : Bool → Best → List Qt → ℤ → Bool
better parties best group med =
    if string_eq.beq best.region "" || ltb (group_seats best.group) (group_seats group)
    then true
    else if group_seats group == group_seats best.group
    then (if parties && not (created_of group == created_of best.group)
        then ltb (created_of group) (created_of best.group)
        else ltb_ℤ med best.median)
    else false

-- One round of the loop over the regions; a group that is not empty has a first ticket.
unfoldable pub consider : Bool → Best → String → List Qt → Best
unfolding score better
consider parties best region [] = best
consider parties best region (t ∷ ts) =
    let med = score parties (t ∷ ts) region in
    if better parties best (t ∷ ts) med
    then record { region = region; group = t ∷ ts; median = med }
    else best

unfoldable pub best_loop : Bool → (String → List Qt) → Best → List String → Best
unfolding consider
best_loop parties offers best [] = best
best_loop parties offers best (r ∷ rs) =
    best_loop parties offers (consider parties best r (offers r)) rs

abbrev no_best : Best
no_best = record { region = ""; group = []; median = pos 0 }

-- The keys of `verFor` that are not exhausted, sorted.
unfoldable pub open_list : List String → List String → List String
open_list ver_for exhausted = sort_slice str_ltb (keep_if (λ r. not (contains r exhausted)) ver_for)

-- `ver_for` are the keys of `verFor`, `exhausted` those of the map of that name.
unfoldable pub best_group :
    List Qt → ℕ → List String → List String → ℕ → ℕ → QueuePolicy → String × List Qt
unfolding offer has_parties best_loop open_list
best_group pool size ver_for exhausted widen now policy =
    let best =
      best_loop (has_parties pool) (offer pool size widen now policy) no_best
        (open_list ver_for exhausted) in
    (best.region, best.group)
