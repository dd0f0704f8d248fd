-- ===== src/AgentLink/Hub.antt =====
-- The queue of commands for one node (master/internal/agentlink/hub.go). The hub's mutex makes each
-- method one step, and each touches the queue of one node. `MasterMsg` is generated code: a command
-- is its id, whether it is a SetRegistries, and a body of any type. A session is its address.
mod Gate
pub mod Secrecy
pub mod Redelivery
mod Runs
use birdman.Base.{
  Bool, List, Option, String, [], false, if◌then◌else◌, keep_if, length, ltb, nat_eq, none, not,
  some, string_eq, ℕ, ◌&&◌, ◌++◌, ◌==◌, ◌||◌, ◌∷◌,
}

pub record Cmd {ℓ} (M : Type ℓ) : Type ℓ where
  pub cmd_id : String
  pub registries : Bool
  pub body : M

-- `out` is the channel; `wire` is what the stream's goroutine has taken from it.
pub record Session {ℓ} (M : Type ℓ) : Type ℓ where
  pub ptr : ℕ
  pub cert_auth : Bool
  pub loopback : Bool
  pub out : List (Cmd M)
  pub wire : List (Cmd M)

pub record NodeQueue {ℓ} (M : Type ℓ) : Type ℓ where
  pub pending : List (Cmd M)
  pub sess : Option (Session M)

abbrev pub out_cap : ℕ
out_cap = 256

module _ {ℓ} {M : Type ℓ} where
  abbrev pub new_node_queue : NodeQueue M
  new_node_queue = record { pending = []; sess = none }

  abbrev pub trusted_for_registries : Session M → Bool
  trusted_for_registries s = s.cert_auth || s.loopback

  -- A full channel skips the command.
  unfoldable pub push : Session M → Cmd M → Session M
  push s m = if ltb (length s.out) out_cap then record s { out = s.out ++ m ∷ [] } else s

  abbrev pub push_to : Option (Session M) → Cmd M → Option (Session M)
  push_to none m = none
  push_to (some s) m = some (push s m)

  unfoldable pub push_all : Session M → List (Cmd M) → Session M
  unfolding push
  push_all s [] = s
  push_all s (m ∷ ms) = push_all (push s m) ms

  abbrev pub find_cmd : String → List (Cmd M) → Option (Cmd M)
  find_cmd id [] = none
  find_cmd id (m ∷ ms) =
      let rest = find_cmd id ms in if string_eq.beq m.cmd_id id then some m else rest

  unfoldable pub remove_set_registries : List (Cmd M) → List (Cmd M)
  remove_set_registries ms = keep_if (λ m. not m.registries) ms

  abbrev pub is_trusted : Option (Session M) → Bool
  is_trusted none = false
  is_trusted (some s) = trusted_for_registries s

  -- `send` of a command that is stamped: the queue, and the id that it returns.
  unfoldable pub send : Cmd M → NodeQueue M → NodeQueue M × String
  unfolding push remove_set_registries
  send m q = elim (find_cmd m.cmd_id q.pending) [
    | some known ↦ (record q { sess = push_to q.sess known }, m.cmd_id)
    | none ↦
        if m.registries && not (is_trusted q.sess)
        then (q, "")
        else let kept = if m.registries then remove_set_registries q.pending else q.pending in
          (record { pending = kept ++ m ∷ []; sess = push_to q.sess m }, m.cmd_id)
  ]

  -- The first command with the id goes.
  unfoldable pub remove_cmd : String → List (Cmd M) → List (Cmd M)
  remove_cmd id [] = []
  remove_cmd id (m ∷ ms) =
      let rest = remove_cmd id ms in if string_eq.beq m.cmd_id id then ms else m ∷ rest

  unfoldable pub ack : String → NodeQueue M → NodeQueue M
  unfolding remove_cmd
  ack id q = record q { pending = remove_cmd id q.pending }

  abbrev with_preface : Option (Cmd M) → List (Cmd M) → List (Cmd M)
  with_preface none ms = ms
  with_preface (some p) ms = p ∷ remove_set_registries ms

  -- What `attach` leaves pending. `preface` is stamped.
  unfoldable pub pending_at_attach : Bool → Option (Cmd M) → List (Cmd M) → List (Cmd M)
  unfolding remove_set_registries
  pending_at_attach trusted preface pending =
      if trusted then with_preface preface pending else remove_set_registries pending

  abbrev pub new_session : ℕ → Bool → Bool → Session M
  new_session ptr cert_auth loopback = record {
    ptr = ptr;
    cert_auth = cert_auth;
    loopback = loopback;
    out = [];
    wire = [];
  }

  unfoldable pub attach : ℕ → Option (Cmd M) → Bool → Bool → NodeQueue M → NodeQueue M
  unfolding push_all pending_at_attach
  attach ptr preface cert_auth loopback q =
      let pending = pending_at_attach (cert_auth || loopback) preface q.pending in
      record {
        pending = pending;
        sess = some (push_all (new_session ptr cert_auth loopback) pending);
      }

  unfoldable pub detach : ℕ → NodeQueue M → NodeQueue M
  detach ptr q = elim q.sess [
    | none ↦ q
    | some s ↦ if s.ptr == ptr then record q { sess = none } else q
  ]

  -- The stream's goroutine takes one command from the channel.
  unfoldable pub take_out : Session M → Session M
  take_out s = elim s.out [ [] ↦ s | m ∷ ms ↦ record s { out = ms; wire = s.wire ++ m ∷ [] } ]

pub data Event {ℓ} (M : Type ℓ) : Type ℓ where
  sends : Cmd M → Event M
  acks : String → Event M
  attaches : ℕ → Option (Cmd M) → Bool → Bool → Event M
  detaches : ℕ → Event M
  takes : Event M

module _ {ℓ} {M : Type ℓ} where
  unfoldable pub step : NodeQueue M → Event M → NodeQueue M
  unfolding send ack attach detach take_out
  step q (sends m) = (send m q).0
  step q (acks id) = ack id q
  step q (attaches ptr preface cert_auth loopback) = attach ptr preface cert_auth loopback q
  step q (detaches ptr) = detach ptr q
  step q takes = elim q.sess [ none ↦ q | some s ↦ record q { sess = some (take_out s) } ]

  unfoldable pub run : NodeQueue M → List (Event M) → NodeQueue M
  unfolding step
  run q [] = q
  run q (e ∷ es) = run (step q e) es
