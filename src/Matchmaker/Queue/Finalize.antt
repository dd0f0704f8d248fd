-- ===== src/Matchmaker/Queue/Finalize.antt =====
-- The invariant of the queue, and that `finalize` keeps it.
use birdman.Base.{
  Bool-cases, Option, Option-cases, String, ap, arith, contains, false, inl, inr, insert, lookup,
  nat_eq, none, not, refl, some, some_eq, string_eq, subst, sym, true, true_ne_false, ℕ, ◌∙◌, ◌≡◌,
  ◌⊎◌,
}
use birdman.Matchmaker.Queue.Index.{
  beq_swap, insert_at, lookup-insert_other, release_keys-kept, release_keys-some,
}
use birdman.Matchmaker.Queue.{
  Queue, Result, Status, Ticket, finalize, is_queued, leave, player_keys, release_keys,
}

-- Every ticket stands under its id, and its channel is closed exactly when it has left the queue;
-- the index of players holds exactly the queued tickets, under all their players; no channel was
-- closed twice.
pub record Inv (q : Queue) : Type 0 where
  pub own :
      (id : String) (t : Ticket)
      → lookup id q.tickets ≡ some t
      → (t.id ≡ id) × (t.done ≡ not (is_queued t.status))
  pub indexed :
      (id k : String) (t : Ticket)
      → lookup id q.tickets ≡ some t
      → is_queued t.status ≡ true
      → contains k (player_keys t) ≡ true
      → lookup k q.by_player ≡ some id
  pub points :
      (k id : String)
      → lookup k q.by_player ≡ some id
      → (t : Ticket) × (lookup id q.tickets ≡ some t)
        × (is_queued t.status ≡ true)
        × (contains k (player_keys t) ≡ true)
  pub calm : q.panicked ≡ false

leave-Inv :
    (t : Ticket) (status : Status) (result : Option Result) (now : ℕ) (q : Queue)
    → Inv q
    → lookup t.id q.tickets ≡ some t
    → is_queued t.status ≡ true
    → is_queued status ≡ false
    → Inv (leave t status result now q)
unfolding leave
leave-Inv t status result now q v at waits ends = record {
  own = own;
  indexed = indexed;
  points = points;
  calm = ground (arith, v.calm, (v.own t.id t at).1, waits);
}
  where
    t' : Ticket
    t' = record t { status = status; result = result; terminal_at = now; done = true }

    own :
        (id : String) (u : Ticket)
        → lookup id (insert t.id t' q.tickets) ≡ some u
        → (u.id ≡ id) × (u.done ≡ not (is_queued u.status))
    own id u e = elim (Bool-cases (string_eq.beq t.id id)) [
      | inr other ↦ v.own id u (sym (lookup-insert_other t.id id t' q.tickets other) ∙ e)
      | inl same ↦
          let i = (string_eq.beq_iff t.id id).0 same in
          let w = insert_at t.id id t' u q.tickets i e in
          subst (λ (z : Ticket). (z.id ≡ id) × (z.done ≡ not (is_queued z.status))) w
            (i, rw ends refl)
    ]

    indexed :
        (id k : String) (u : Ticket)
        → lookup id (insert t.id t' q.tickets) ≡ some u
        → is_queued u.status ≡ true
        → contains k (player_keys u) ≡ true
        → lookup k (release_keys t.id (player_keys t) q.by_player) ≡ some id
    indexed id k u e w c = elim (Bool-cases (string_eq.beq t.id id)) [
      | inl same ↦
          let x = insert_at t.id id t' u q.tickets ((string_eq.beq_iff t.id id).0 same) e in
          absurd (true_ne_false w (ap (λ (z : Ticket). is_queued z.status) (sym x) ∙ ends))
      | inr other ↦
          release_keys-kept t.id k id (player_keys t) q.by_player (beq_swap t.id id other)
            (v.indexed id k u (sym (lookup-insert_other t.id id t' q.tickets other) ∙ e) w c)
    ]

    points :
        (k id : String)
        → lookup k (release_keys t.id (player_keys t) q.by_player) ≡ some id
        → (u : Ticket) × (lookup id (insert t.id t' q.tickets) ≡ some u)
          × (is_queued u.status ≡ true)
          × (contains k (player_keys u) ≡ true)
    points k id e =
        let (p, how) = release_keys-some t.id k id (player_keys t) q.by_player e in
        let (u, au, wu, cu) = v.points k id p in
        elim (Bool-cases (string_eq.beq t.id id)) [
          | inr other ↦ (u, lookup-insert_other t.id id t' q.tickets other ∙ au, wu, cu)
          | inl same ↦
              let i = (string_eq.beq_iff t.id id).0 same in
              let x : t ≡ u = some_eq (sym at ∙ ap (λ z. lookup z q.tickets) i ∙ au) in
              let c : contains k (player_keys t) ≡ true =
                subst (λ z. contains k (player_keys z) ≡ true) (sym x) cu in
              absurd (elim how [
                | inl missing ↦ true_ne_false c missing
                | inr ne ↦ true_ne_false ((string_eq.beq_iff id t.id).1 (sym i)) ne
              ])
        ]

pub finalize_queued :
    (id : String) (t : Ticket) (status : Status) (result : Option Result) (now : ℕ) (q : Queue)
    → lookup id q.tickets ≡ some t
    → is_queued t.status ≡ true
    → finalize id status result now q ≡ leave t status result now q
unfolding finalize
finalize_queued id t status result now q at waits = rw (at, waits, finalize) refl

finalize_missing :
    (id : String) (status : Status) (result : Option Result) (now : ℕ) (q : Queue)
    → lookup id q.tickets ≡ none
    → finalize id status result now q ≡ q
unfolding finalize
finalize_missing id status result now q at = rw (at, finalize) refl

finalize_ended :
    (id : String) (t : Ticket) (status : Status) (result : Option Result) (now : ℕ) (q : Queue)
    → lookup id q.tickets ≡ some t
    → is_queued t.status ≡ false
    → finalize id status result now q ≡ q
unfolding finalize
finalize_ended id t status result now q at ended = rw (at, ended, finalize) refl

-- Either nothing happens or a queued ticket leaves.
pub finalize-cases :
    (id : String) (status : Status) (result : Option Result) (now : ℕ) (q : Queue)
    → (finalize id status result now q ≡ q)
      ⊎ ((t : Ticket) × (lookup id q.tickets ≡ some t)
          × (is_queued t.status ≡ true)
          × (finalize id status result now q ≡ leave t status result now q))
finalize-cases id status result now q = elim (Option-cases (lookup id q.tickets)) [
  | inl missing ↦ inl (finalize_missing id status result now q missing)
  | inr (t, at) ↦ elim (Bool-cases (is_queued t.status)) [
    | inl waits ↦ inr (t, at, waits, finalize_queued id t status result now q at waits)
    | inr ended ↦ inl (finalize_ended id t status result now q at ended)
  ]
]

pub finalize-Inv :
    (id : String) (status : Status) (result : Option Result) (now : ℕ) (q : Queue)
    → Inv q
    → is_queued status ≡ false
    → Inv (finalize id status result now q)
finalize-Inv id status result now q v ends = elim (finalize-cases id status result now q) [
  | inl same ↦ subst Inv (sym same) v
  | inr (t, at, waits, e) ↦
      let own_id : id ≡ t.id = sym (v.own id t at).0 in
      subst Inv (sym e) (
        leave-Inv t status result now q v (ap (λ z. lookup z q.tickets) (sym own_id) ∙ at) waits
          ends)
]
