-- ===== src/Agent/Ports.antt =====
-- The host port pool of a node (agent/internal/ports/pool.go). The mutex makes each method one
-- step. The map `inUse` only ever holds `true`, so it is the list of its keys.
pub mod Ownership
pub mod Exhaustion
pub mod Counting
mod Runs
use birdman.Base.{
  Bool, List, Option, [], contains, erase_all, if◌then◌else◌, leb, length, ltb, nat_eq, negsuc,
  none, not, pos, some, string_eq, suc, zero, ℕ, ℤ, ◌&&◌, ◌+◌, ◌-◌, ◌==◌, ◌||◌, ◌∷◌,
}

pub record Pool : Type 0 where
  pub from : ℕ
  pub to : ℕ
  pub in_use : List ℕ

pub data PoolError : Type 0 where
  exhausted outside_range already_in_use not_acquired : PoolError

pub data Outcome : Type 0 where
  granted : ℕ → Outcome
  refused : PoolError → Outcome

abbrev pub max_port : ℕ
max_port = 65535

-- `New`: the arguments are Go ints.
unfoldable pub new : ℤ → ℤ → Option Pool
new (pos from) (pos to) =
    if from == 0 || ltb max_port to || ltb to from
    then none
    else some (record { from = from; to = to; in_use = [] })
new (pos from) (negsuc to) = none
new (negsuc from) to = none

-- The loop of `Acquire`, from `port`, over the ports that are left.
unfoldable pub first_free : List ℕ → ℕ → ℕ → Option ℕ
first_free used zero port = none
first_free used (suc left) port =
    let rest = first_free used left (port + 1) in if contains port used then rest else some port

unfoldable pub acquire : Pool → Pool × Outcome
unfolding first_free
acquire p = elim (first_free p.in_use (p.to + 1 - p.from) p.from) [
  | none ↦ (p, refused exhausted)
  | some port ↦ (record p { in_use = port ∷ p.in_use }, granted port)
]

abbrev in_range : Pool → ℕ → Bool
in_range p port = leb p.from port && leb port p.to

unfoldable pub acquire_specific : Pool → ℕ → Pool × Outcome
acquire_specific p port =
    if not (in_range p port)
    then (p, refused outside_range)
    else if contains port p.in_use
    then (p, refused already_in_use)
    else (record p { in_use = port ∷ p.in_use }, granted port)

unfoldable pub release : Pool → ℕ → Pool × Outcome
release p port =
    if not (in_range p port)
    then (p, refused outside_range)
    else if contains port p.in_use
    then (record p { in_use = erase_all port p.in_use }, granted port)
    else (p, refused not_acquired)

pub in_use_count : Pool → ℕ
in_use_count p = length p.in_use

pub capacity : Pool → ℕ
capacity p = p.to + 1 - p.from

-- The calls of the agent: `Acquire`, `AcquireSpecific` and `Release`.
pub data Call : Type 0 where
  acquires : Call
  claims releases : ℕ → Call

pub step : Pool → Call → Pool
unfolding acquire acquire_specific release
step p acquires = (acquire p).0
step p (claims port) = (acquire_specific p port).0
step p (releases port) = (release p port).0

pub run : Pool → List Call → Pool
unfolding step
run p [] = p
run p (c ∷ cs) = run (step p c) cs
