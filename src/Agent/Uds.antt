-- ===== src/Agent/Uds.antt =====
-- One server's socket (agent/internal/uds/server.go). What runs under `mu` is one step; a write to
-- the connection that was read there comes in a later step, in any order with the others, and whether
-- it succeeds is an argument. A connection is a number. The JSON of a frame is not modelled.
pub mod Roster
mod Runs
use birdman.Base.{
  Bool, List, Option, String, [], false, if◌then◌else◌, ltb_ℤ, nat_eq, none, not, some, string_eq,
  suc, true, zero, ℕ, ℤ, ◌&&◌, ◌++◌, ◌==◌, ◌∷◌,
}

-- The data of an `allocated` frame.
pub record Allocation : Type 0 where
  pub match_id : String
  pub players_expected : ℤ
  pub metadata : List (String × String)

pub data OutFrame : Type 0 where
  allocated_frame : Allocation → OutFrame
  drain_frame : ℤ → String → OutFrame
  ping_frame : OutFrame

-- `wire` is what was written, the newest first, each frame with its connection. `replay` is what
-- the accept loop has still to write to the connection that it took last; `sends` is what calls of
-- the `Send` methods have still to write.
pub record Server : Type 0 where
  pub conn : Option ℕ
  pub last_allocated : Option Allocation
  pub last_drain : Option (ℤ × String)
  pub last_heard : Option ℕ
  pub closed : Bool
  pub replay_to : ℕ
  pub replay : List OutFrame
  pub sends : List (ℕ × OutFrame)
  pub wire : List (ℕ × OutFrame)

pub data Sent : Type 0 where
  sent under_way not_connected write_failed kept_newer : Sent

-- `Listen`.
unfoldable pub listen : Server
listen = record {
  conn = none;
  last_allocated = none;
  last_drain = none;
  last_heard = none;
  closed = false;
  replay_to = 0;
  replay = [];
  sends = [];
  wire = [];
}

-- A failed write closes the connection, and drops it if it is still the current one.
unfoldable pub write_to : Server → ℕ → OutFrame → Bool → Server × Sent
write_to s conn f ok = if ok then (record s { wire = (conn, f) ∷ s.wire }, sent) else elim s.conn [
  | none ↦ (s, write_failed)
  | some c ↦ if c == conn then (record s { conn = none }, write_failed) else (s, write_failed)
]

-- Each `Send`, under `mu`: its write will go to the connection of now, if there is one.
unfoldable pub to_current : Server → OutFrame → Server × Sent
to_current s f = elim s.conn [
  | none ↦ (s, not_connected)
  | some c ↦ (record s { sends = (c, f) ∷ s.sends }, under_way)
]

unfoldable pub take_send : ℕ → List (ℕ × OutFrame) → Option ((ℕ × OutFrame) × List (ℕ × OutFrame))
take_send i [] = none
take_send zero (x ∷ xs) = some (x, xs)
take_send (suc i) (x ∷ xs) = elim (take_send i xs) [ none ↦ none | some (y, ys) ↦ some (y, x ∷ ys) ]

-- The end of a `Send`: the write, which is the one at `i`.
unfoldable pub write_send : Server → ℕ → Bool → Server
unfolding take_send write_to
write_send s i ok = elim (take_send i s.sends) [
  | none ↦ s
  | some ((conn, f), rest) ↦ (write_to (record s { sends = rest }) conn f ok).0
]

-- The guard of `SendAllocated`: an older roster of the match that is cached.
unfoldable pub is_older : Allocation → Option Allocation → Bool
is_older a none = false
is_older a (some last) =
    string_eq.beq last.match_id a.match_id && ltb_ℤ a.players_expected last.players_expected

unfoldable pub send_allocated : Server → Allocation → Server × Sent
unfolding is_older to_current
send_allocated s a =
    if is_older a s.last_allocated
    then (s, kept_newer)
    else to_current (record s { last_allocated = some a }) (allocated_frame a)

unfoldable pub send_drain : Server → ℤ → String → Server × Sent
unfolding to_current
send_drain s deadline reason =
    to_current (record s { last_drain = some (deadline, reason) }) (drain_frame deadline reason)

unfoldable pub send_ping : Server → Server × Sent
unfolding to_current
send_ping s = to_current s ping_frame

abbrev pub pending_allocated : Option Allocation → List OutFrame
pending_allocated none = []
pending_allocated (some a) = allocated_frame a ∷ []

abbrev pub pending_drain : Option (ℤ × String) → List OutFrame
pending_drain none = []
pending_drain (some (deadline, reason)) = drain_frame deadline reason ∷ []

-- `acceptLoop`, up to its writes: the new connection replaces the old one. The loop takes one
-- connection at a time.
unfoldable pub accept : Server → ℕ → ℕ → Server
accept s conn now = record s {
  conn = some conn;
  last_heard = some now;
  replay_to = conn;
  replay = pending_allocated s.last_allocated ++ pending_drain s.last_drain;
}

-- One write of the loop over `replay`.
unfoldable pub replay_next : Server → Bool → Server
unfolding write_to
replay_next s ok = elim s.replay [
  | [] ↦ s
  | f ∷ rest ↦ (write_to (record s { replay = rest }) s.replay_to f ok).0
]

-- A valid frame of `readLoop`.
unfoldable pub hear : Server → ℕ → Server
hear s now = record s { last_heard = some now }

-- The end of `readLoop` of a connection: the new state, and whether `OnDisconnect` is called.
unfoldable pub hang_up : Server → ℕ → Server × Bool
hang_up s conn = elim s.conn [
  | none ↦ (s, false)
  | some c ↦ if c == conn then (record s { conn = none }, not s.closed) else (s, false)
]

unfoldable pub close : Server → Server
close s = if s.closed then s else record s { closed = true; conn = none }

pub data Step : Type 0 where
  allocates : Allocation → Step
  drains : ℤ → String → Step
  pings closes : Step
  writes : ℕ → Bool → Step
  replays : Bool → Step
  accepts : ℕ → ℕ → Step
  hears hangs_up : ℕ → Step

unfoldable pub step : Server → Step → Server
unfolding send_allocated send_drain send_ping write_send accept replay_next hear hang_up close
step s (allocates a) = (send_allocated s a).0
step s (drains deadline reason) = (send_drain s deadline reason).0
step s pings = (send_ping s).0
step s (writes i ok) = write_send s i ok
step s (replays ok) = replay_next s ok
step s (accepts conn now) = elim s.replay [ [] ↦ accept s conn now | f ∷ rest ↦ s ]
step s (hears now) = hear s now
step s (hangs_up conn) = (hang_up s conn).0
step s closes = close s

unfoldable pub run : Server → List Step → Server
unfolding step
run s [] = s
run s (e ∷ es) = run (step s e) es
