-- ===== src/Agent/Logs/Following.antt =====
-- The follow of a log file that only grows.
use birdman.Base.{Bool, List, [], if◌then◌else◌, length, none, some, suc, zero, ℕ, ◌++◌, ◌<◌, ◌∷◌}
use birdman.Agent.Logs.{Byte, Poll, present}

abbrev pub take : ℕ → List Byte → List Byte
take zero xs = []
take (suc n) [] = []
take (suc n) (x ∷ xs) = x ∷ take n xs

-- A file between two polls: bytes that come before its size is read, bytes that come after that, and
-- whether it opens.
pub record Growth : Type 0 where
  pub before : List Byte
  pub between : List Byte
  pub opens : Bool

-- The polls of a file that starts as `x` and grows, and then one poll in which it does not.
abbrev pub polls_of : List Byte → List Growth → List Poll
polls_of x [] = present (length x) (some x) ∷ []
polls_of x (g ∷ gs) =
    let x' = (x ++ g.before) ++ g.between in
    present (length (x ++ g.before)) (if g.opens then some x' else none) ∷ polls_of x' gs

abbrev pub grown : List Byte → List Growth → List Byte
grown x [] = x
grown x (g ∷ gs) = grown ((x ++ g.before) ++ g.between) gs

-- A file after a rotation: what it holds at the first poll that sees the shorter file, and how it
-- grows from then on.
pub record Rotated : Type 0 where
  pub content : List Byte
  pub growths : List Growth

abbrev pub polls_through : List Rotated → List Poll
polls_through [] = []
polls_through (r ∷ rs) =
    present (length r.content) (some r.content) ∷ (polls_of r.content r.growths ++ polls_through rs)

abbrev pub written_through : List Rotated → List Byte
written_through [] = []
written_through (r ∷ rs) = grown r.content r.growths ++ written_through rs

-- Each rotated file is seen first when it is not empty and shorter than what was read before.
abbrev pub IsSeen : ℕ → List Rotated → Type 0
IsSeen n [] = Unit
IsSeen n (r ∷ rs) =
    (0 < length r.content) × (length r.content < n) × IsSeen (length (grown r.content r.growths)) rs
