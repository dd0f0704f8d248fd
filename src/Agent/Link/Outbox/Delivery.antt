-- ===== src/Agent/Link/Outbox/Delivery.antt =====
-- What the outbox keeps and delivers, over every interleaving of pushes and drain rounds.
use birdman.Base.{List, [], length, suc, zero, ℕ, ◌+◌, ◌<◌, ◌∷◌, ◌≡◌, ◌≤◌, ◌⊎◌}
use birdman.Agent.Link.Outbox.{Msg, Outbox, Session, outbox_cap, pop, run}

-- The addresses in the queue are consecutive from `lo`.
abbrev IsRun {ℓ} : {M : Type ℓ} → ℕ → List (Msg M) → Type 0
IsRun lo [] = Unit
IsRun lo (m ∷ ms) = (m.ptr ≡ lo) × IsRun (suc lo) ms

-- The newest first: every message was pushed after the next one in the list, and before `n`.
abbrev pub IsFalling {ℓ} : {M : Type ℓ} → ℕ → List (Msg M) → Type 0
IsFalling n [] = Unit
IsFalling n (m ∷ ms) = (m.ptr < n) × IsFalling m.ptr ms

-- A message with the address `p` is among them.
abbrev pub IsIn {ℓ} : {M : Type ℓ} → ℕ → List (Msg M) → Type 0
IsIn p [] = ⊥
IsIn p (m ∷ ms) = (m.ptr ≡ p) ⊎ IsIn p ms

-- Every address below `n` has `P`.
abbrev pub AllBelow : (ℕ → Type 0) → ℕ → Type 0
AllBelow P zero = Unit
AllBelow P (suc n) = P n × AllBelow P n

module _ {ℓ} {M : Type ℓ} where
  -- The queue of an outbox, from the address `lo`.
  record Queued (lo : ℕ) (o : Outbox M) : Type 0 where
    run : IsRun lo o.queue
    counted : lo + length o.queue ≡ o.fresh
    bounded : length o.queue ≤ outbox_cap

  -- `o'` is what pushes have made of `o`: the queue now starts at `lo'`.
  record Later (lo : ℕ) (o : Outbox M) (lo' : ℕ) (o' : Outbox M) : Type 0 where
    queued : Queued lo' o'
    forward : lo ≤ lo'
    lost : (p : ℕ) → lo ≤ p → p < lo' → IsIn p o'.dropped
    grows : (p : ℕ) → IsIn p o.dropped → IsIn p o'.dropped
    fresher : o.fresh ≤ o'.fresh

  -- What holds of a session between two steps, from the address `lo`.
  record Inv (lo : ℕ) (s : Session M) : Type 0 where
    queued : Queued lo s.outbox
    falling : IsFalling lo s.sent
    accounted : (p : ℕ) → p < lo → IsIn p s.sent ⊎ IsIn p s.outbox.dropped

  -- `pop` after the message `m` was peeked at: the queue goes on behind `m`, whether `m` was still
  -- the head or an overflow had thrown it away.
  record Popped (lo : ℕ) (o : Outbox M) (m : Msg M) (lo' : ℕ) : Type ℓ where
    queued : Queued lo' (pop o m)
    beyond : m.ptr < lo'
    covered : (p : ℕ) → lo ≤ p → p < lo' → p ≡ m.ptr
    kept : (pop o m).dropped ≡ o.dropped
