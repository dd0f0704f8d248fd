-- ===== src/Matchmaker/Queue.antt =====
-- The queue of tickets and its indices (master/internal/matchmaker/matchmaker.go). A `*ticket` is
-- its id: `tickets` holds every ticket that an index points to. A ticket's `done` is whether its
-- channel is closed; to close it twice is a panic. The metrics are left out.
mod Index
pub mod Finalize
mod Cancel
mod Admit
pub mod Submission
pub mod Players
mod Runs
use Prim.Native.String.{◌++◌ as str_append}
use birdman.Base.{
  Bool, List, Option, String, [], delete, false, if◌then◌else◌, insert, leb, lookup, ltb, nat_eq,
  none, not, some, string_eq, true, ℕ, ◌&&◌, ◌-◌, ◌||◌, ◌∷◌,
}
use birdman.Matchmaker.Groups.{RegionPing}

pub data Status : Type 0 where
  queued : Status
  matched : Status
  update_required : Status
  cancelled : Status
  expired : Status

pub record Result : Type 0 where
  pub host : String
  pub port : ℕ
  pub match_id : String
  pub join_token : String
  pub server_id : String
  pub version_id : String
  pub game_mode : String
  pub ticket_ids : List String

pub record Member : Type 0 where
  pub player_id : String
  pub regions : List RegionPing

pub record Ticket : Type 0 where
  pub id : String
  pub project : String
  pub env : String
  pub player_id : String
  pub client_version : String
  pub game_mode : String
  pub bucket : String
  pub regions : List RegionPing
  pub created_at : ℕ
  pub members : List Member
  pub party_id : String
  pub party_revision : ℕ
  pub request_id : String
  pub fingerprint : ℕ
  pub payload : String
  pub status : Status
  pub result : Option Result
  pub terminal_at : ℕ
  pub done : Bool

-- The maps of `Matchmaker`, and whether a channel was closed twice.
pub record Queue : Type 0 where
  pub tickets : List (String × Ticket)
  pub by_player : List (String × String)
  pub by_party : List (String × String)
  pub by_request : List (String × String)
  pub dirty : List String
  pub panicked : Bool

abbrev pub new_queue : Queue
new_queue = record {
  tickets = [];
  by_player = [];
  by_party = [];
  by_request = [];
  dirty = [];
  panicked = false;
}

abbrev pub is_queued : Status → Bool
is_queued Status.queued = true
is_queued _ = false

unfoldable pub scope_key : String → String → String → String
scope_key project env id =
    str_append project (str_append "\0" (str_append env (str_append "\0" id)))

unfoldable pub member_keys : String → String → List Member → List String
member_keys project env [] = []
member_keys project env (m ∷ ms) = scope_key project env m.player_id ∷ member_keys project env ms

unfoldable pub player_keys : Ticket → List String
unfolding member_keys
player_keys t = elim t.members [
  | [] ↦ scope_key t.project t.env t.player_id ∷ []
  | m ∷ ms ↦ member_keys t.project t.env (m ∷ ms)
]

abbrev pub points_to : String → Option String → Bool
points_to id none = false
points_to id (some j) = string_eq.beq j id

-- The loop of `finalize` over the player keys.
unfoldable pub release_keys : String → List String → List (String × String) → List (String × String)
release_keys id [] m = m
release_keys id (k ∷ ks) m =
    release_keys id ks (if points_to id (lookup k m) then delete k m else m)

-- `finalize` of a ticket that is still queued.
unfoldable pub leave : Ticket → Status → Option Result → ℕ → Queue → Queue
unfolding release_keys player_keys
leave t status result now q = record q {
  tickets =
      insert t.id (record t { status = status; result = result; terminal_at = now; done = true })
        q.tickets;
  by_player = release_keys t.id (player_keys t) q.by_player;
  dirty = t.id ∷ q.dirty;
  panicked = q.panicked || t.done;
}

unfoldable pub finalize : String → Status → Option Result → ℕ → Queue → Queue
unfolding leave
finalize id status result now q = elim (lookup id q.tickets) [
  | none ↦ q
  | some t ↦ if is_queued t.status then leave t status result now q else q
]

-- The loop of `Submit` that cancels the tickets of its players.
unfoldable pub cancel_players : List String → ℕ → Queue → Queue
unfolding finalize
cancel_players [] now q = q
cancel_players (k ∷ ks) now q = cancel_players ks now (elim (lookup k q.by_player) [
  | none ↦ q
  | some prev ↦ finalize prev Status.cancelled none now q
])

unfoldable pub index_players :
    String → List String → List (String × String) → List (String × String)
index_players id [] m = m
index_players id (k ∷ ks) m = index_players id ks (insert k id m)

-- What `Submit` does to the maps once the earlier tickets are cancelled.
unfoldable pub admit : Ticket → ℕ → Queue → Queue
unfolding index_players player_keys
admit t now q = record q {
  tickets =
      insert t.id (if is_queued t.status then t else record t { terminal_at = now; done = true })
        q.tickets;
  by_player =
      if is_queued t.status then index_players t.id (player_keys t) q.by_player else q.by_player;
  by_party =
      if string_eq.beq t.party_id ""
      then q.by_party
      else insert (scope_key t.project t.env t.party_id) t.id q.by_party;
  by_request =
      if string_eq.beq t.request_id ""
      then q.by_request
      else insert (scope_key t.project t.env t.request_id) t.id q.by_request;
  dirty = t.id ∷ q.dirty;
  panicked = q.panicked || (not (is_queued t.status) && t.done);
}

-- The ticket of a party that is there already.
unfoldable pub party_of : Ticket → Queue → Option Ticket
party_of t q =
    if string_eq.beq t.party_id ""
    then none
    else elim (lookup (scope_key t.project t.env t.party_id) q.by_party) [
      | none ↦ none
      | some prev ↦ lookup prev q.tickets
    ]

-- `Submit` of a new ticket, after the checks and the reads of the database; `none` is
-- `ErrRequestConflict`.
unfoldable pub enqueue : Ticket → ℕ → Queue → Option Queue
unfolding party_of cancel_players admit
enqueue t now q = elim (party_of t q) [
  | none ↦ some (admit t now (cancel_players (player_keys t) now q))
  | some prev ↦
      if leb t.party_revision prev.party_revision
      then none
      else some (
          admit t now
            (cancel_players (player_keys t) now (finalize prev.id Status.cancelled none now q)))
]

-- The janitor's part of `RunOnce` (tick.go) on a ticket that ended long ago.
unfoldable pub forget : Ticket → Queue → Queue
forget t q =
    let party = scope_key t.project t.env t.party_id in
    record q {
      tickets = delete t.id q.tickets;
      by_party =
          if points_to t.id (lookup party q.by_party) then delete party q.by_party else q.by_party;
      by_request =
          if string_eq.beq t.request_id ""
          then q.by_request
          else delete (scope_key t.project t.env t.request_id) q.by_request;
    }

-- One round of the first loop of `RunOnce`: `ttl` and `keep` are `TicketTTL` and the retention.
unfoldable pub visit : ℕ → ℕ → ℕ → String → Queue → Queue
unfolding finalize forget
visit ttl keep now id q = elim (lookup id q.tickets) [
  | none ↦ q
  | some t ↦
      if is_queued t.status
      then (if ltb ttl (now - t.created_at) then finalize id Status.expired none now q else q)
      else if ltb keep (now - t.terminal_at)
      then forget t q
      else q
]

unfoldable pub scan : ℕ → ℕ → ℕ → List String → Queue → Queue
unfolding visit
scan ttl keep now [] q = q
scan ttl keep now (id ∷ ids) q = scan ttl keep now ids (visit ttl keep now id q)
