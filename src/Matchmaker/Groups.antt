-- ===== src/Matchmaker/Groups.antt =====
-- How a group of tickets is packed (`pack` of master/internal/matchmaker/party.go). A ticket's
-- regions are normalized, so no round-trip time is negative. Times are counts since one epoch.
pub mod Subsets
pub mod Reach
pub mod Packing
pub mod Answers
mod Runs
use Prim.Native.Nat.{Ordering}
use Prim.Native.String.{compare as str_compare}
use birdman.Base.{
  Bool, List, String, [], false, if◌then◌else◌, leb, lookup, ltb, max, nat_eq, none, not, some,
  string_eq, true, ℕ, ◌&&◌, ◌++◌, ◌+◌, ◌-◌, ◌==◌, ◌∷◌,
}

pub record RegionPing : Type 0 where
  pub region : String
  pub rtt_ms : ℕ

-- A queued ticket's snapshot.
pub record Qt : Type 0 where
  pub id : String
  pub player : String
  pub bucket : String
  pub game_mode : String
  pub version : String
  pub created : ℕ
  pub regions : List RegionPing
  pub players : ℕ
  pub payload : String
  pub party : Bool

pub record QueuePolicy : Type 0 where
  pub project : String
  pub env : String
  pub game_mode : String
  pub backfill : Bool
  pub minimum_size : ℕ
  pub partial_wait : ℕ
  pub max_rtt_ms : ℕ
  pub expanded_max_rtt_ms : ℕ

unfoldable pub seats : Qt → ℕ
seats t = max 1 t.players

unfoldable pub group_seats : List Qt → ℕ
group_seats [] = 0
group_seats (t ∷ ts) = seats t + group_seats ts

abbrev pub str_ltb : String → String → Bool
str_ltb a b = elim (str_compare a b) [ Ordering.lt ↦ true | _ ↦ false ]

-- The order of `sort.Slice` in `pack`: the oldest first, then by id.
abbrev older : Qt → Qt → Bool
older a b = if not (a.created == b.created) then ltb a.created b.created else str_ltb a.id b.id

-- `sort.Slice`, of the standard library; which of two equal items comes first is left open there.
module _ {ℓ} {A : Type ℓ} (less : A → A → Bool) where
  unfoldable pub insert_sorted : A → List A → List A
  insert_sorted a [] = a ∷ []
  insert_sorted a (x ∷ xs) =
      let rest = insert_sorted a xs in if less x a then x ∷ rest else a ∷ x ∷ xs

  unfoldable pub sort_slice : List A → List A
  unfolding insert_sorted
  sort_slice [] = []
  sort_slice (x ∷ xs) = insert_sorted x (sort_slice xs)

-- The groups that `pack` has reached, by their sums of seats.
abbrev pub Reached : Type 0
Reached = List (ℕ × List Qt)

-- The loop that fills `updates`: every reached group that `next` may still join, if its new sum
-- fits and was not reached. The new sums are distinct and not in `reach`.
unfoldable pub updates : ℕ → Reached → Qt → Reached → Reached
updates size reach next [] = []
updates size reach next ((n, g) ∷ more) =
    let rest = updates size reach next more in
    let total = n + seats next in
    elim (lookup total reach) [
      | none ↦ if leb total size then (total, g ++ next ∷ []) ∷ rest else rest
      | some _ ↦ rest
    ]

unfoldable pub extend : ℕ → Reached → Qt → Reached
unfolding updates
extend size reach next = reach ++ updates size reach next reach

-- The loop over the tickets behind the anchor; it stops once the full sum is reached.
unfoldable pub grow : ℕ → Reached → List Qt → Reached
grow size reach [] = reach
grow size reach (next ∷ rest) =
    let wider = extend size reach next in
    let more = grow size wider rest in elim (lookup size wider) [ some _ ↦ wider | none ↦ more ]

-- The loop over `reach` that looks for the largest partial group, from the best so far.
unfoldable pub best_partial : QueuePolicy → ℕ × List Qt → Reached → ℕ × List Qt
best_partial policy best [] = best
best_partial policy best ((n, g) ∷ more) =
    best_partial policy (if leb policy.minimum_size n && ltb best.0 n then (n, g) else best) more

abbrev waited : QueuePolicy → ℕ → Qt → Bool
waited policy now first = ltb 0 policy.partial_wait && leb policy.partial_wait (now - first.created)

-- The loop of `pack` over the anchors; `at_first` is whether the anchor has the index 0.
unfoldable pub pack_loop : ℕ → QueuePolicy → ℕ → Bool → List Qt → List Qt → List Qt
pack_loop size policy now at_first partial [] = partial
pack_loop size policy now at_first partial (first ∷ rest) =
    let skipped = pack_loop size policy now false partial rest in
    let reach = grow size ((seats first, first ∷ []) ∷ []) rest in
    let kept =
      if at_first && waited policy now first
      then (best_partial policy (0, []) reach).1
      else partial in
    let next = pack_loop size policy now false kept rest in
    if ltb size (seats first)
    then skipped
    else elim (lookup size reach) [ some g ↦ g | none ↦ next ]

unfoldable pub pack : List Qt → ℕ → QueuePolicy → ℕ → List Qt
unfolding pack_loop sort_slice
pack eligible size policy now = pack_loop size policy now true [] (sort_slice older eligible)
