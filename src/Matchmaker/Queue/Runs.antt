-- ===== src/Matchmaker/Queue/Runs.antt =====
-- A queue in which a party takes over the players of two earlier tickets.
use birdman.Base.{
  List, String, [], contains, false, lookup, nat_eq, none, not, refl, some, string_eq, true, ℕ, ◌↔◌,
  ◌∷◌, ◌≡◌, ◌≤◌,
}
use birdman.Matchmaker.Queue.{
  Member, Queue, Status, Ticket, admit, cancel_players, enqueue, finalize, forget, index_players,
  is_queued, leave, member_keys, new_queue, party_of, player_keys, release_keys, scan, scope_key,
  visit,
}
use birdman.Matchmaker.Queue.Players.{AreNew, Call, new_queue-Inv, run, run-new_queue_unique, step}
use birdman.Matchmaker.Queue.Submission.{enqueue-conflict, enqueue-takes}

abbrev ticket : String → String → List Member → String → ℕ → Ticket
ticket id player members party revision = record {
  id = id;
  project = "p";
  env = "prod";
  player_id = player;
  client_version = "1.3.0";
  game_mode = "";
  bucket = "1.3";
  regions = record { region = "eu"; rtt_ms = 20 } ∷ [];
  created_at = 0;
  members = members;
  party_id = party;
  party_revision = revision;
  request_id = "";
  fingerprint = 0;
  payload = "";
  status = Status.queued;
  result = none;
  terminal_at = 0;
  done = false;
}

abbrev pair : List Member
pair = record { player_id = "ann"; regions = [] } ∷ record { player_id = "bob"; regions = [] } ∷ []

abbrev party : Ticket
party = ticket "t2" "" pair "team" 1

-- The solo ticket of Ann goes when her party comes; the party's first ticket goes with its second.
abbrev calls : List Call
calls =
    Call.submits (ticket "t1" "ann" [] "" 0) 1
    ∷ Call.submits party 2
    ∷ Call.submits (ticket "t3" "" pair "team" 2) 3
    ∷ Call.scans 120 300 500 ("t1" ∷ "t2" ∷ "t3" ∷ [])
    ∷ Call.ends "t3" Status.matched none 600
    ∷ []

new_calls : AreNew new_queue calls
unfolding step enqueue party_of cancel_players finalize leave release_keys admit index_players scan
    visit forget player_keys member_keys scope_key
new_calls = ((refl, refl), ((refl, refl), ((refl, refl), (tt, (refl, tt)))))

run-new_queue_unique_example :
    ((id j k : String) (t u : Ticket)
      → lookup id (run new_queue calls).tickets ≡ some t
      → is_queued t.status ≡ true
      → lookup j (run new_queue calls).tickets ≡ some u
      → is_queued u.status ≡ true
      → contains k (player_keys t) ≡ true
      → contains k (player_keys u) ≡ true
      → id ≡ j)
    × ((id : String) (t : Ticket)
        → lookup id (run new_queue calls).tickets ≡ some t
        → t.done ≡ not (is_queued t.status))
    × ((run new_queue calls).panicked ≡ false)
run-new_queue_unique_example = run-new_queue_unique calls new_calls

-- A queue that holds the party's first ticket.
abbrev one_party : Queue
one_party = record {
  tickets = ("t2", party) ∷ [];
  by_player = (scope_key "p" "prod" "ann", "t2") ∷ (scope_key "p" "prod" "bob", "t2") ∷ [];
  by_party = (scope_key "p" "prod" "team", "t2") ∷ [];
  by_request = [];
  dirty = "t2" ∷ [];
  panicked = false;
}

enqueue-conflict_party : (enqueue (ticket "t3" "" pair "team" 1) 3 one_party ≡ none) ↔ (
    (prev : Ticket) × (party_of (ticket "t3" "" pair "team" 1) one_party ≡ some prev)
    × (1 ≤ prev.party_revision))
enqueue-conflict_party = enqueue-conflict (ticket "t3" "" pair "team" 1) 3 one_party

same_revision : enqueue (ticket "t3" "" pair "team" 1) 3 one_party ≡ none
unfolding enqueue party_of scope_key
same_revision = refl

accepts : enqueue party 2 new_queue ≡ some one_party
unfolding enqueue party_of cancel_players admit index_players player_keys member_keys scope_key
accepts = refl

enqueue-takes_example :
    (lookup "t2" one_party.tickets ≡ some party)
    × ((k : String)
        → contains k (player_keys party) ≡ true
        → lookup k one_party.by_player ≡ some "t2")
    × ((j k : String) (u : Ticket)
        → lookup j one_party.tickets ≡ some u
        → is_queued u.status ≡ true
        → contains k (player_keys party) ≡ true
        → contains k (player_keys u) ≡ true
        → j ≡ "t2")
enqueue-takes_example =
    enqueue-takes party 2 new_queue one_party new_queue-Inv refl refl refl accepts
