-- ===== src/Matchmaker/Queue/Admit.antt =====
-- A new ticket whose players are in no queued ticket keeps the invariant.
use birdman.Base.{
  Bool-cases, List, String, [], ap, arith, contains, false, if◌then◌else◌, inl, inr, insert, lookup,
  lookup-insert, nat_eq, none, not, refl, some, some_eq, string_eq, subst, sym, true, true_ne_false,
  ℕ, ◌∙◌, ◌∷◌, ◌≡◌,
}
use birdman.Matchmaker.Queue.{Queue, Ticket, admit, index_players, is_queued, player_keys}
use birdman.Matchmaker.Queue.Index.{insert_at, lookup-insert_other, lookup-insert_self}
use birdman.Matchmaker.Queue.Finalize.{Inv}

lookup-index_players :
    (id j : String) (ks : List String) (m : List (String × String))
    → lookup j (index_players id ks m) ≡ (if contains j ks then some id else lookup j m)
unfolding index_players
lookup-index_players id j [] m = refl
lookup-index_players id j (k ∷ ks) m = ground (
  arith,
  lookup-index_players id j ks (insert k id m),
  lookup-insert k j id m,
  string_eq.beq_iff k j,
)

present_other :
    (j id : String) (q : Queue) {u : Ticket}
    → lookup j q.tickets ≡ none
    → lookup id q.tickets ≡ some u
    → string_eq.beq j id ≡ false
present_other j id q fresh at = elim (Bool-cases (string_eq.beq j id)) [
  | inr ne ↦ ne
  | inl same ↦ absurd (let i : j ≡ id = (string_eq.beq_iff j id).0 same in cc (fresh, at, i))
]

pub admit-Inv :
    (t : Ticket) (now : ℕ) (q : Queue)
    → Inv q
    → lookup t.id q.tickets ≡ none
    → t.done ≡ false
    → ((k : String) → contains k (player_keys t) ≡ true → lookup k q.by_player ≡ none)
    → Inv (admit t now q)
unfolding admit
admit-Inv t now q v fresh undone free = elim (Bool-cases (is_queued t.status)) [
  | inl waits ↦
      rw (waits, admit)
        (record {
          own = own waits;
          indexed = indexed;
          points = points waits;
          calm = ground (arith, v.calm);
        })
  | inr ended ↦
      rw (ended, admit)
        (record {
          own = own' ended;
          indexed = indexed' ended;
          points = points';
          calm = ground (arith, v.calm, undone);
        })
]
  where
    own :
        is_queued t.status ≡ true
        → (id : String) (u : Ticket) → lookup id (insert t.id t q.tickets) ≡ some u
        → (u.id ≡ id) × (u.done ≡ not (is_queued u.status))
    own waits id u e = elim (Bool-cases (string_eq.beq t.id id)) [
      | inr other ↦ v.own id u (sym (lookup-insert_other t.id id t q.tickets other) ∙ e)
      | inl same ↦
          let i = (string_eq.beq_iff t.id id).0 same in
          subst (λ (z : Ticket). (z.id ≡ id) × (z.done ≡ not (is_queued z.status)))
            (insert_at t.id id t u q.tickets i e) (i, undone ∙ ap not (sym waits))
    ]

    indexed :
        (id k : String) (u : Ticket)
        → lookup id (insert t.id t q.tickets) ≡ some u
        → is_queued u.status ≡ true
        → contains k (player_keys u) ≡ true
        → lookup k (index_players t.id (player_keys t) q.by_player) ≡ some id
    indexed id k u e w c = elim (Bool-cases (string_eq.beq t.id id)) [
      | inl same ↦
          let i = (string_eq.beq_iff t.id id).0 same in
          let x = insert_at t.id id t u q.tickets i e in
          let c' : contains k (player_keys t) ≡ true =
            subst (λ (z : Ticket). contains k (player_keys z) ≡ true) (sym x) c in
          lookup-index_players t.id k (player_keys t) q.by_player
          ∙ ap (λ b. if b then some t.id else lookup k q.by_player) c'
          ∙ ap some i
      | inr other ↦
          let p = v.indexed id k u (sym (lookup-insert_other t.id id t q.tickets other) ∙ e) w c in
          elim (Bool-cases (contains k (player_keys t))) [
            | inl shared ↦ absurd (cc (free k shared, p))
            | inr apart ↦
                lookup-index_players t.id k (player_keys t) q.by_player
                ∙ ap (λ b. if b then some t.id else lookup k q.by_player) apart
                ∙ p
          ]
    ]

    points :
        is_queued t.status ≡ true
        → (k id : String) → lookup k (index_players t.id (player_keys t) q.by_player) ≡ some id
        → (u : Ticket) × (lookup id (insert t.id t q.tickets) ≡ some u)
          × (is_queued u.status ≡ true)
          × (contains k (player_keys u) ≡ true)
    points waits k id e =
        let l = sym (lookup-index_players t.id k (player_keys t) q.by_player) ∙ e in
        elim (Bool-cases (contains k (player_keys t))) [
          | inl named ↦
              let i : t.id ≡ id =
                some_eq (sym (ap (λ b. if b then some t.id else lookup k q.by_player) named) ∙ l) in
              (
                t,
                ap (λ z. lookup z (insert t.id t q.tickets)) (sym i)
                    ∙ lookup-insert_self t.id t q.tickets,
                waits,
                named,
              )
          | inr apart ↦
              let (u, at, w, c) =
                v.points k id
                  (sym (ap (λ b. if b then some t.id else lookup k q.by_player) apart) ∙ l) in
              (
                u,
                lookup-insert_other t.id id t q.tickets (present_other t.id id q fresh at) ∙ at,
                w,
                c,
              )
        ]

    t' : Ticket
    t' = record t { terminal_at = now; done = true }

    own' :
        is_queued t.status ≡ false
        → (id : String) (u : Ticket) → lookup id (insert t.id t' q.tickets) ≡ some u
        → (u.id ≡ id) × (u.done ≡ not (is_queued u.status))
    own' ended id u e = elim (Bool-cases (string_eq.beq t.id id)) [
      | inr other ↦ v.own id u (sym (lookup-insert_other t.id id t' q.tickets other) ∙ e)
      | inl same ↦
          let i = (string_eq.beq_iff t.id id).0 same in
          subst (λ (z : Ticket). (z.id ≡ id) × (z.done ≡ not (is_queued z.status)))
            (insert_at t.id id t' u q.tickets i e) (i, ap not (sym ended))
    ]

    indexed' :
        is_queued t.status ≡ false
        → (id k : String) (u : Ticket) → lookup id (insert t.id t' q.tickets) ≡ some u
        → is_queued u.status ≡ true
        → contains k (player_keys u) ≡ true
        → lookup k q.by_player ≡ some id
    indexed' ended id k u e w c = elim (Bool-cases (string_eq.beq t.id id)) [
      | inl same ↦
          let x = insert_at t.id id t' u q.tickets ((string_eq.beq_iff t.id id).0 same) e in
          absurd (true_ne_false w (ap (λ (z : Ticket). is_queued z.status) (sym x) ∙ ended))
      | inr other ↦ v.indexed id k u (sym (lookup-insert_other t.id id t' q.tickets other) ∙ e) w c
    ]

    points' :
        (k id : String)
        → lookup k q.by_player ≡ some id
        → (u : Ticket) × (lookup id (insert t.id t' q.tickets) ≡ some u)
          × (is_queued u.status ≡ true)
          × (contains k (player_keys u) ≡ true)
    points' k id e =
        let (u, at, w, c) = v.points k id e in
        (u, lookup-insert_other t.id id t' q.tickets (present_other t.id id q fresh at) ∙ at, w, c)
