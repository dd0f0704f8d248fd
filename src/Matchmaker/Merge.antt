-- ===== src/Matchmaker/Merge.antt =====
-- How the database's tickets enter the maps (`merge`, master/internal/matchmaker/durable.go). A
-- record that does not decode, or whose columns differ from its body, is `none`; the channel is no
-- part of a record.
mod Runs
use birdman.Base.{
  Bool, Bool-cases, List, Option, String, [], arith, false, if◌then◌else◌, inl, inr, insert, lookup,
  ltb, nat_eq, none, not, refl, some, string_eq, true, true_ne_false, ◌&&◌, ◌||◌, ◌∷◌, ◌≡◌,
}
use birdman.Matchmaker.Queue.{Queue, Ticket, index_players, is_queued, player_keys, scope_key}

-- A persisted ticket in the place of what the map has under its id, and whether a closed channel
-- was closed again.
unfoldable pub merged : Option Ticket → Ticket → Ticket × Bool
merged none p = (record p { done = not (is_queued p.status) }, false)
merged (some prev) p =
    let closes = is_queued prev.status && not (is_queued p.status) in
    (record p { done = prev.done || closes }, closes && prev.done)

unfoldable pub merge_records : List (Option Ticket) → Queue → Option Queue
unfolding merged
merge_records [] q = some q
merge_records (none ∷ rs) q = none
merge_records (some p ∷ rs) q =
    let m = merged (lookup p.id q.tickets) p in
    merge_records rs
      (record q { tickets = insert p.id m.0 q.tickets; panicked = q.panicked || m.1 })

unfoldable pub index_request : Ticket → List (String × String) → List (String × String)
index_request t m =
    if string_eq.beq t.request_id ""
    then m
    else insert (scope_key t.project t.env t.request_id) t.id m

abbrev newer : Ticket → Option Ticket → Bool
newer t none = true
newer t (some prev) = ltb prev.party_revision t.party_revision

unfoldable pub index_party :
    List (String × Ticket) → Ticket → List (String × String) → List (String × String)
index_party tickets t m =
    let key = scope_key t.project t.env t.party_id in
    let prev : Option Ticket = elim (lookup key m) [ none ↦ none | some id ↦ lookup id tickets ] in
    if not (string_eq.beq t.party_id "") && newer t prev then insert key t.id m else m

-- The second loop, over the tickets that are left, with all of them at hand.
unfoldable pub reindex : List (String × Ticket) → List (String × Ticket) → Queue → Queue
unfolding index_request index_party
reindex all [] q = q
reindex all ((id, t) ∷ ts) q = reindex all ts (record q {
  by_player =
      if is_queued t.status then index_players t.id (player_keys t) q.by_player else q.by_player;
  by_request = index_request t q.by_request;
  by_party = index_party all t q.by_party;
})

unfoldable pub merge : List (Option Ticket) → Queue → Option Queue
unfolding merge_records reindex
merge records q = elim (merge_records records q) [
  | none ↦ none
  | some q' ↦
      some (
        reindex q'.tickets q'.tickets
          (record q' { by_player = []; by_party = []; by_request = [] }))
]

-- A merge never closes a channel twice and leaves it closed exactly when the ticket is not queued,
-- if that held before and the record does not queue again a ticket that has ended.
pub merged_closes :
    (prev : Option Ticket) (p : Ticket)
    → ((t : Ticket)
        → prev ≡ some t
        → (t.done ≡ not (is_queued t.status))
          × (is_queued p.status ≡ true → is_queued t.status ≡ true))
    → ((merged prev p).0.done ≡ not (is_queued p.status)) × ((merged prev p).1 ≡ false)
unfolding merged
merged_closes none p h = (refl, refl)
merged_closes (some t) p h =
    let (d, still) = h t refl in
    elim (Bool-cases (is_queued t.status)) [
      | inl waits ↦ (ground (arith, d, waits), ground (arith, d, waits))
      | inr ended ↦ elim (Bool-cases (is_queued p.status)) [
        | inl again ↦ absurd (true_ne_false (still again) ended)
        | inr e ↦ (ground (arith, d, ended, e), ground (arith, d, ended, e))
      ]
    ]
