-- ===== src/Agent/Link/Outbox.antt =====
-- The queue of messages to the master (agent/internal/link/outbox.go), and the loop of a session
-- that drains it (client.go). The mutex makes each method one step. `pop` compares pointers, so a
-- message carries the address that its allocation got; `AgentMsg` is generated code, a type `M`.
pub mod Delivery
mod Runs
use birdman.Base.{
  Bool, List, Option, [], drop, false, if◌then◌else◌, leb, length, none, some, true, ℕ, ◌++◌, ◌+◌,
  ◌==◌, ◌∷◌,
}

abbrev pub outbox_cap : ℕ
outbox_cap = 1024

pub record Msg {ℓ} (M : Type ℓ) : Type ℓ where
  pub ptr : ℕ
  pub body : M

-- `notify` is whether the channel of capacity 1 holds its token; `fresh` is the next address;
-- `dropped` is the messages that an overflow threw
-- away, the newest first (each is a log line of `push`).
pub record Outbox {ℓ} (M : Type ℓ) : Type ℓ where
  pub queue : List (Msg M)
  pub notify : Bool
  pub fresh : ℕ
  pub dropped : List (Msg M)

module _ {ℓ} {M : Type ℓ} where
  unfoldable pub new_outbox : Outbox M
  new_outbox = record { queue = []; notify = false; fresh = 0; dropped = [] }

  -- The head of the queue goes to the dropped messages.
  abbrev pub evict : List (Msg M) → List (Msg M) → List (Msg M)
  evict [] dropped = dropped
  evict (m ∷ rest) dropped = m ∷ dropped

  -- `push`, with the allocation of its argument.
  unfoldable pub push : Outbox M → M → Outbox M
  push o body =
      let m : Msg M = record { ptr = o.fresh; body = body } in
      let full = leb outbox_cap (length o.queue) in
      record {
        queue = (if full then drop 1 o.queue else o.queue) ++ m ∷ [];
        notify = true;
        fresh = o.fresh + 1;
        dropped = if full then evict o.queue o.dropped else o.dropped;
      }

  unfoldable pub peek : Outbox M → Option (Msg M)
  peek o = elim o.queue [ [] ↦ none | m ∷ rest ↦ some m ]

  unfoldable pub pop : Outbox M → Msg M → Outbox M
  pop o m = elim o.queue [
    | [] ↦ o
    | head ∷ rest ↦ if head.ptr == m.ptr then record o { queue = rest } else o
  ]

  unfoldable pub len : Outbox M → ℕ
  len o = length o.queue

-- An agent's outbox and what its streams have taken, the newest first, over all sessions.
pub record Session {ℓ} (M : Type ℓ) : Type ℓ where
  pub outbox : Outbox M
  pub sent : List (Msg M)

module _ {ℓ} {M : Type ℓ} where
  -- Other goroutines push at any time.
  unfoldable pub pushes : Outbox M → List M → Outbox M
  pushes o [] = o
  pushes o (b ∷ bs) = pushes (push o b) bs

  -- One round of the drain loop: peek, send, pop. `meanwhile` is pushed while the send is under way,
  -- and `sends` is whether the send succeeds; if not, the session ends and the message stays.
  unfoldable pub drain_round : Session M → List M → Bool → Session M
  unfolding peek
  drain_round s meanwhile sends = elim (peek s.outbox) [
    | none ↦ record s { outbox = pushes s.outbox meanwhile }
    | some m ↦
        if sends
        then record { outbox = pop (pushes s.outbox meanwhile) m; sent = m ∷ s.sent }
        else record s { outbox = pushes s.outbox meanwhile }
  ]

pub data Event {ℓ} (M : Type ℓ) : Type ℓ where
  pushed : M → Event M
  round : List M → Bool → Event M

module _ {ℓ} {M : Type ℓ} where
  unfoldable pub step : Session M → Event M → Session M
  step s (pushed b) = record s { outbox = push s.outbox b }
  step s (round meanwhile sends) = drain_round s meanwhile sends

  unfoldable pub run : Session M → List (Event M) → Session M
  run s [] = s
  run s (e ∷ es) = run (step s e) es

  unfoldable pub start : Session M
  unfolding new_outbox
  start = record { outbox = new_outbox; sent = [] }
