-- ===== src/Matchmaker/Queue/Players.antt =====
-- What the queue keeps over every sequence of submissions, endings and passes of the janitor.
use birdman.Base.{
  Bool-cases, List, Option, Option-cases, String, [], ap, arith, contains, delete, false, inl, inr,
  lookup, lookup-delete, ltb, nat_eq, none, not, refl, some, some_eq, string_eq, sym, true,
  true_ne_false, ℕ, ◌-◌, ◌∙◌, ◌∷◌, ◌≡◌,
}
use birdman.Matchmaker.Queue.Submission.{enqueue-Inv}
use birdman.Matchmaker.Queue.{
  Queue, Result, Status, Ticket, enqueue, finalize, forget, is_queued, new_queue, player_keys, scan,
  visit,
}
use birdman.Matchmaker.Queue.Finalize.{Inv, finalize-Inv}

forget-Inv :
    (id : String) (t : Ticket) (q : Queue)
    → Inv q
    → lookup id q.tickets ≡ some t
    → is_queued t.status ≡ false
    → Inv (forget t q)
unfolding forget
forget-Inv id t q v at ended = record {
  own = λ j u e. v.own j u (still j u e);
  indexed = λ j k u e w c. v.indexed j k u (still j u e) w c;
  points = points;
  calm = v.calm;
}
  where
    own_id : t.id ≡ id
    own_id = (v.own id t at).0

    still :
        (j : String) (u : Ticket)
        → lookup j (delete t.id q.tickets) ≡ some u
        → lookup j q.tickets ≡ some u
    still j u e = ground (arith, lookup-delete t.id j q.tickets, e)

    points :
        (k j : String)
        → lookup k q.by_player ≡ some j
        → (u : Ticket) × (lookup j (delete t.id q.tickets) ≡ some u)
          × (is_queued u.status ≡ true)
          × (contains k (player_keys u) ≡ true)
    points k j e =
        let (u, au, w, c) = v.points k j e in
        elim (Bool-cases (string_eq.beq t.id j)) [
          | inr other ↦ (u, ground (arith, lookup-delete t.id j q.tickets, other, au), w, c)
          | inl same ↦
              let i : id ≡ j = sym own_id ∙ (string_eq.beq_iff t.id j).0 same in
              let x : t ≡ u = some_eq (sym at ∙ ap (λ z. lookup z q.tickets) i ∙ au) in
              absurd (true_ne_false w (ap (λ (z : Ticket). is_queued z.status) (sym x) ∙ ended))
        ]

visit-Inv : (ttl keep now : ℕ) (id : String) (q : Queue) → Inv q → Inv (visit ttl keep now id q)
unfolding visit
visit-Inv ttl keep now id q v = elim (Option-cases (lookup id q.tickets)) [
  | inl missing ↦ rw (missing, visit) v
  | inr (t, at) ↦ elim (Bool-cases (is_queued t.status)) [
    | inl waits ↦ elim (Bool-cases (ltb ttl (now - t.created_at))) [
      | inl late ↦ rw (at, waits, late, visit) (finalize-Inv id Status.expired none now q v refl)
      | inr early ↦ rw (at, waits, early, visit) v
    ]
    | inr ended ↦ elim (Bool-cases (ltb keep (now - t.terminal_at))) [
      | inl late ↦ rw (at, ended, late, visit) (forget-Inv id t q v at ended)
      | inr early ↦ rw (at, ended, early, visit) v
    ]
  ]
]

scan-Inv :
    (ttl keep now : ℕ) (ids : List String) (q : Queue) → Inv q → Inv (scan ttl keep now ids q)
unfolding scan
scan-Inv ttl keep now [] q v = v
scan-Inv ttl keep now (id ∷ ids) q v =
    scan-Inv ttl keep now ids (visit ttl keep now id q) (visit-Inv ttl keep now id q v)

-- The calls that change the queue. A match, an outdated version and a cancellation all end a ticket.
pub data Call : Type 0 where
  submits : Ticket → ℕ → Call
  ends : String → Status → Option Result → ℕ → Call
  scans : ℕ → ℕ → ℕ → List String → Call

abbrev kept_or_next : Queue → Option Queue → Queue
kept_or_next q none = q
kept_or_next q (some q') = q'

unfoldable pub step : Queue → Call → Queue
unfolding enqueue finalize scan
step q (submits t now) = kept_or_next q (enqueue t now q)
step q (ends id status result now) = finalize id status result now q
step q (scans ttl keep now ids) = scan ttl keep now ids q

unfoldable pub run : Queue → List Call → Queue
unfolding step
run q [] = q
run q (c ∷ cs) = run (step q c) cs

-- A submitted ticket has an id that the queue lacks and an open channel; nothing ends as queued.
abbrev IsNew : Queue → Call → Type 0
IsNew q (submits t now) = (lookup t.id q.tickets ≡ none) × (t.done ≡ false)
IsNew q (ends id status result now) = is_queued status ≡ false
IsNew q (scans ttl keep now ids) = Unit

abbrev pub AreNew : Queue → List Call → Type 0
AreNew q [] = Unit
AreNew q (c ∷ cs) = IsNew q c × AreNew (step q c) cs

step-Inv : (q : Queue) (c : Call) → Inv q → IsNew q c → Inv (step q c)
unfolding step
step-Inv q (submits t now) v new = elim (Option-cases (enqueue t now q)) [
  | inl conflict ↦ rw (conflict, step) v
  | inr (q', e) ↦ rw (e, step) (enqueue-Inv t now q q' v new.0 new.1 e)
]
step-Inv q (ends id status result now) v new = finalize-Inv id status result now q v new
step-Inv q (scans ttl keep now ids) v new = scan-Inv ttl keep now ids q v

run-Inv : (q : Queue) (cs : List Call) → Inv q → AreNew q cs → Inv (run q cs)
unfolding run
run-Inv q [] v new = v
run-Inv q (c ∷ cs) v new = run-Inv (step q c) cs (step-Inv q c v new.0) new.1

pub new_queue-Inv : Inv new_queue
new_queue-Inv = record {
  own = λ id t e. absurd (cc);
  indexed = λ id k t e w c. absurd (cc);
  points = λ k id e. absurd (cc);
  calm = refl;
}

-- From an empty queue, whatever is submitted under new ids, ended and swept: no two queued tickets
-- share a player of one environment, a ticket's channel is closed exactly when it has left the
-- queue, and no channel is ever closed twice.
pub run-new_queue_unique :
    (cs : List Call)
    → AreNew new_queue cs
    → ((id j k : String) (t u : Ticket)
        → lookup id (run new_queue cs).tickets ≡ some t
        → is_queued t.status ≡ true
        → lookup j (run new_queue cs).tickets ≡ some u
        → is_queued u.status ≡ true
        → contains k (player_keys t) ≡ true
        → contains k (player_keys u) ≡ true
        → id ≡ j)
      × ((id : String) (t : Ticket)
          → lookup id (run new_queue cs).tickets ≡ some t
          → t.done ≡ not (is_queued t.status))
      × ((run new_queue cs).panicked ≡ false)
run-new_queue_unique cs new =
    let v = run-Inv new_queue cs new_queue-Inv new in
    (
      (λ id j k t u at w au wu ct cu.
          some_eq (sym (v.indexed id k t at w ct) ∙ v.indexed j k u au wu cu)),
      (λ id t at. (v.own id t at).1),
      v.calm,
    )
