-- ===== src/Matchmaker/Regions.antt =====
-- What a ticket's measured regions become (`normalizeRegions`, master/internal/matchmaker/
-- matchmaker.go), and which policy a queue has (`policy`, party.go).
mod Runs
use birdman.Base.{
  Bool, Bool-cases, List, Option, String, [], arith, false, if◌then◌else◌, inl, inr, insert, length,
  lookup, ltb, max, min, nat_eq, negsuc, none, not, pos, some, string_eq, ℕ, ℤ, ◌&&◌, ◌==◌, ◌||◌,
  ◌∷◌, ◌≤◌,
}
use birdman.Matchmaker.Groups.{QueuePolicy, RegionPing, sort_slice, str_ltb}

-- As a client sends it.
pub record RawPing : Type 0 where
  pub region : String
  pub rtt_ms : ℤ

-- `best` with one more sample.
unfoldable pub keep_best : String → ℕ → List (String × ℕ) → List (String × ℕ)
keep_best region rtt best = elim (lookup region best) [
  | none ↦ insert region rtt best
  | some cur ↦ if ltb rtt cur then insert region rtt best else best
]

-- The loop over the input; `none` is an error.
unfoldable pub best_rtts : List (String × ℕ) → List RawPing → Option (List (String × ℕ))
unfolding keep_best
best_rtts best [] = some best
best_rtts best (r ∷ rs) = elim r.rtt_ms [
  | negsuc n ↦ none
  | pos rtt ↦
      let rest = best_rtts (keep_best r.region rtt best) rs in
      if string_eq.beq r.region "" then none else rest
]

abbrev pings : List (String × ℕ) → List RegionPing
pings [] = []
pings ((region, rtt) ∷ more) = record { region = region; rtt_ms = rtt } ∷ pings more

abbrev closer : RegionPing → RegionPing → Bool
closer a b = if not (a.rtt_ms == b.rtt_ms) then ltb a.rtt_ms b.rtt_ms else str_ltb a.region b.region

unfoldable pub normalize_regions : List RawPing → Option (List RegionPing)
unfolding best_rtts sort_slice
normalize_regions raw =
    if length raw == 0 || ltb 16 (length raw)
    then none
    else elim (best_rtts [] raw) [ none ↦ none | some best ↦ some (sort_slice closer (pings best)) ]

-- The loop of `policy` over the configured policies, from the one selected so far.
unfoldable pub select_policy :
    String → String → String → ℕ → QueuePolicy → List QueuePolicy → QueuePolicy
select_policy project env game_mode size selected [] = selected
select_policy project env game_mode size selected (p ∷ ps) =
    let bounded = record p { minimum_size = min size (max 1 p.minimum_size) } in
    let other =
      select_policy project env game_mode size
        (if string_eq.beq p.game_mode "" then bounded else selected) ps in
    let skipped = select_policy project env game_mode size selected ps in
    if string_eq.beq p.project project && string_eq.beq p.env env
    then (if string_eq.beq p.game_mode game_mode then bounded else other)
    else skipped

abbrev full_only : ℕ → QueuePolicy
full_only size = record {
  project = "";
  env = "";
  game_mode = "";
  backfill = false;
  minimum_size = size;
  partial_wait = 0;
  max_rtt_ms = 0;
  expanded_max_rtt_ms = 0;
}

unfoldable pub policy : List QueuePolicy → String → String → String → ℕ → QueuePolicy
unfolding select_policy
policy policies project env game_mode size =
    select_policy project env game_mode size (full_only size) policies

select_policy_bounded :
    (project env game_mode : String) (size : ℕ) (selected : QueuePolicy) (ps : List QueuePolicy)
    → selected.minimum_size ≤ size
    → (select_policy project env game_mode size selected ps).minimum_size ≤ size
unfolding select_policy
select_policy_bounded project env game_mode size selected [] h = h
select_policy_bounded project env game_mode size selected (p ∷ ps) h =
    elim (Bool-cases (string_eq.beq p.project project && string_eq.beq p.env env)) [
      | inr elsewhere ↦
          rw elsewhere (select_policy_bounded project env game_mode size selected ps h)
      | inl here ↦ elim (Bool-cases (string_eq.beq p.game_mode game_mode)) [
        | inl same ↦ rw (here, same) (omega arith)
        | inr differs ↦ elim (Bool-cases (string_eq.beq p.game_mode "")) [
          | inl any ↦
              rw (here, differs, any)
                (select_policy_bounded project env game_mode size
                  (record p { minimum_size = min size (max 1 p.minimum_size) }) ps (omega arith))
          | inr none_given ↦
              rw (here, differs, none_given)
                (select_policy_bounded project env game_mode size selected ps h)
        ]
      ]
    ]

-- The minimum that a queue may start a match with is never more than the full size, whatever the
-- policies say.
pub policy_bounded :
    (policies : List QueuePolicy) (project env game_mode : String) (size : ℕ)
    → (policy policies project env game_mode size).minimum_size ≤ size
unfolding policy
policy_bounded policies project env game_mode size =
    select_policy_bounded project env game_mode size (full_only size) policies (omega arith)
