-- ===== src/Matchmaker/Queue/Submission.antt =====
-- What `Submit` does to a sound queue, on every branch.
use birdman.Base.{
  Bool-cases, Option-cases, String, contains, false, inl, inr, leb, leb→le, le→leb, lookup, nat_eq,
  none, refl, some, some_eq, string_eq, subst, sym, true, ℕ, ◌↔◌, ◌∙◌, ◌≡◌, ◌≤◌,
}
use birdman.Matchmaker.Queue.{
  Queue, Status, Ticket, admit, cancel_players, enqueue, finalize, is_queued, party_of, player_keys,
}
use birdman.Matchmaker.Queue.Index.{lookup-insert_self}
use birdman.Matchmaker.Queue.Finalize.{Inv, finalize-Inv}
use birdman.Matchmaker.Queue.Cancel.{cancel_players-Cleared, finalize-fresh}
use birdman.Matchmaker.Queue.Admit.{admit-Inv}

replaced-Inv :
    (t : Ticket) (now : ℕ) (q : Queue)
    → Inv q
    → lookup t.id q.tickets ≡ none
    → t.done ≡ false
    → Inv (admit t now (cancel_players (player_keys t) now q))
replaced-Inv t now q v fresh undone =
    let (w, free, fewer, still) = cancel_players-Cleared (player_keys t) t.id now q v in
    admit-Inv t now (cancel_players (player_keys t) now q) w (still fresh) undone free

enqueue_first :
    (t : Ticket) (now : ℕ) (q : Queue)
    → party_of t q ≡ none
    → enqueue t now q ≡ some (admit t now (cancel_players (player_keys t) now q))
unfolding enqueue
enqueue_first t now q e = rw (e, enqueue) refl

enqueue_stale :
    (t prev : Ticket) (now : ℕ) (q : Queue)
    → party_of t q ≡ some prev
    → leb t.party_revision prev.party_revision ≡ true
    → enqueue t now q ≡ none
unfolding enqueue
enqueue_stale t prev now q e old = rw (e, old, enqueue) refl

enqueue_newer :
    (t prev : Ticket) (now : ℕ) (q : Queue)
    → party_of t q ≡ some prev
    → leb t.party_revision prev.party_revision ≡ false
    → enqueue t now q
      ≡ some (
          admit t now
            (cancel_players (player_keys t) now (finalize prev.id Status.cancelled none now q)))
unfolding enqueue
enqueue_newer t prev now q e new = rw (e, new, enqueue) refl

-- An accepted ticket is admitted once the tickets of its players are cancelled in a sound queue.
enqueue-cases :
    (t : Ticket) (now : ℕ) (q q' : Queue)
    → Inv q
    → lookup t.id q.tickets ≡ none
    → enqueue t now q ≡ some q'
    → (r : Queue) × Inv r
      × (lookup t.id r.tickets ≡ none)
      × (admit t now (cancel_players (player_keys t) now r) ≡ q')
enqueue-cases t now q q' v fresh h = elim (Option-cases (party_of t q)) [
  | inl first ↦ (q, v, fresh, some_eq (sym (enqueue_first t now q first) ∙ h))
  | inr (prev, e) ↦ elim (Bool-cases (leb t.party_revision prev.party_revision)) [
    | inl old ↦ absurd (cc (enqueue_stale t prev now q e old, h))
    | inr new ↦ (
      finalize prev.id Status.cancelled none now q,
      finalize-Inv prev.id Status.cancelled none now q v refl,
      finalize-fresh prev.id Status.cancelled none now q t.id v fresh,
      some_eq (sym (enqueue_newer t prev now q e new) ∙ h),
    )
  ]
]

pub enqueue-Inv :
    (t : Ticket) (now : ℕ) (q q' : Queue)
    → Inv q
    → lookup t.id q.tickets ≡ none
    → t.done ≡ false
    → enqueue t now q ≡ some q'
    → Inv q'
enqueue-Inv t now q q' v fresh undone h =
    let (r, w, f, e) = enqueue-cases t now q q' v fresh h in
    subst Inv e (replaced-Inv t now r w f undone)

-- `Submit` refuses a ticket exactly when the newest ticket of its party is in memory with a
-- revision that is not smaller.
pub enqueue-conflict :
    (t : Ticket) (now : ℕ) (q : Queue)
    → (enqueue t now q ≡ none)
      ↔ ((prev : Ticket) × (party_of t q ≡ some prev) × (t.party_revision ≤ prev.party_revision))
enqueue-conflict t now q = (
  λ h. elim (Option-cases (party_of t q)) [
    | inl first ↦ absurd (cc (enqueue_first t now q first, h))
    | inr (prev, e) ↦ elim (Bool-cases (leb t.party_revision prev.party_revision)) [
      | inl old ↦ (prev, e, leb→le t.party_revision prev.party_revision old)
      | inr new ↦ absurd (cc (enqueue_newer t prev now q e new, h))
    ]
  ],
  λ f. enqueue_stale t f.0 now q f.1 (le→leb t.party_revision f.0.party_revision f.2),
)

admit-present :
    (t : Ticket) (now : ℕ) (q : Queue)
    → is_queued t.status ≡ true
    → lookup t.id (admit t now q).tickets ≡ some t
unfolding admit
admit-present t now q waits = rw (waits, admit) (lookup-insert_self t.id t q.tickets)

-- When a sound queue accepts a ticket that has a new id, an open channel and the status queued, the
-- ticket is in the queue as it is, every player of it is indexed under it, and every other ticket
-- that still waits shares no player with it.
pub enqueue-takes :
    (t : Ticket) (now : ℕ) (q q' : Queue)
    → Inv q
    → lookup t.id q.tickets ≡ none
    → t.done ≡ false
    → is_queued t.status ≡ true
    → enqueue t now q ≡ some q'
    → (lookup t.id q'.tickets ≡ some t)
      × ((k : String) → contains k (player_keys t) ≡ true → lookup k q'.by_player ≡ some t.id)
      × ((j k : String) (u : Ticket)
          → lookup j q'.tickets ≡ some u
          → is_queued u.status ≡ true
          → contains k (player_keys t) ≡ true
          → contains k (player_keys u) ≡ true
          → j ≡ t.id)
enqueue-takes t now q q' v fresh undone waits h =
    let (r, w, f, e) = enqueue-cases t now q q' v fresh h in
    let v' = enqueue-Inv t now q q' v fresh undone h in
    let here =
      subst (λ (z : Queue). lookup t.id z.tickets ≡ some t) e
        (admit-present t now (cancel_players (player_keys t) now r) waits) in
    (
      here,
      (λ k c. v'.indexed t.id k t here waits c),
      (λ j k u au wu ct cu.
          some_eq (sym (v'.indexed j k u au wu cu) ∙ v'.indexed t.id k t here waits ct)),
    )
