-- ===== src/Matchmaker/Queue/Cancel.antt =====
-- The loop of `Submit` that cancels the tickets of its players.
use birdman.Base.{
  Bool-cases, List, Option, Option-cases, String, [], contains, false, inl, inr, lookup, nat_eq,
  none, refl, some, some_eq, string_eq, subst, sym, true, true_ne_false, ||-true, ℕ, ◌∙◌, ◌∷◌, ◌≡◌,
  ◌⊎◌,
}
use birdman.Matchmaker.Queue.{
  Queue, Result, Status, Ticket, cancel_players, finalize, leave, player_keys,
}
use birdman.Matchmaker.Queue.Index.{lookup-insert_other, release_keys-some}
use birdman.Matchmaker.Queue.Finalize.{Inv, finalize-Inv, finalize-cases, finalize_queued}

leave-by_player :
    (t : Ticket) (status : Status) (result : Option Result) (now : ℕ) (q : Queue) (j x : String)
    → lookup j (leave t status result now q).by_player ≡ some x
    → (lookup j q.by_player ≡ some x)
      × ((contains j (player_keys t) ≡ false) ⊎ (string_eq.beq x t.id ≡ false))
unfolding leave
leave-by_player t status result now q j x h =
    release_keys-some t.id j x (player_keys t) q.by_player h

pub finalize-by_player :
    (id : String) (status : Status) (result : Option Result) (now : ℕ) (q : Queue) (j x : String)
    → lookup j (finalize id status result now q).by_player ≡ some x
    → lookup j q.by_player ≡ some x
finalize-by_player id status result now q j x h = elim (finalize-cases id status result now q) [
  | inl same ↦ subst (λ (r : Queue). lookup j r.by_player ≡ some x) same h
  | inr (t, at, waits, e) ↦
      (leave-by_player t status result now q j x
        (subst (λ (r : Queue). lookup j r.by_player ≡ some x) e h)).0
]

pub finalize-fresh :
    (id : String) (status : Status) (result : Option Result) (now : ℕ) (q : Queue) (j : String)
    → Inv q
    → lookup j q.tickets ≡ none
    → lookup j (finalize id status result now q).tickets ≡ none
finalize-fresh id status result now q j v h = elim (finalize-cases id status result now q) [
  | inl same ↦ subst (λ (r : Queue). lookup j r.tickets ≡ none) (sym same) h
  | inr (t, at, waits, e) ↦
      subst (λ (r : Queue). lookup j r.tickets ≡ none) (sym e)
        (unfold leave in
          elim (Bool-cases (string_eq.beq t.id j)) [
            | inr other ↦ lookup-insert_other t.id j _ q.tickets other ∙ h
            | inl same ↦ absurd (
                let i : id ≡ j = sym (v.own id t at).0 ∙ (string_eq.beq_iff t.id j).0 same in
                cc (at, h, i))
          ])
]

stays_free :
    (m m' : List (String × String)) (k i : String)
    → lookup k m ≡ none
    → string_eq.beq k i ≡ true
    → ((x : String) → lookup i m' ≡ some x → lookup i m ≡ some x)
    → lookup i m' ≡ none
stays_free m m' k i free same fewer = elim (Option-cases (lookup i m')) [
  | inl e ↦ e
  | inr (x, e) ↦
      let f = fewer x e in
      let k_i : k ≡ i = (string_eq.beq_iff k i).0 same in absurd (cc (f, free, k_i))
]

-- What cancelling the ticket under one player key leaves.
record Cleared (k j : String) (q q' : Queue) : Type 0 where
  inv : Inv q'
  free : lookup k q'.by_player ≡ none
  fewer : (i x : String) → lookup i q'.by_player ≡ some x → lookup i q.by_player ≡ some x
  fresh : lookup j q.tickets ≡ none → lookup j q'.tickets ≡ none

cancel_one :
    (k j : String) (now : ℕ) (q : Queue) (o : Option String)
    → Inv q
    → lookup k q.by_player ≡ o
    → Cleared k j q (elim o [ none ↦ q | some prev ↦ finalize prev Status.cancelled none now q ])
cancel_one k j now q none v e = record { inv = v; free = e; fewer = λ i x h. h; fresh = λ h. h }
cancel_one k j now q (some prev) v e = record {
  inv = finalize-Inv prev Status.cancelled none now q v refl;
  free = free;
  fewer = finalize-by_player prev Status.cancelled none now q;
  fresh = finalize-fresh prev Status.cancelled none now q j v;
}
  where
    free : lookup k (finalize prev Status.cancelled none now q).by_player ≡ none
    free = elim (Option-cases (lookup k (finalize prev Status.cancelled none now q).by_player)) [
      | inl n ↦ n
      | inr (x, f) ↦
          let (t, at, waits, named) = v.points k prev e in
          let ended = finalize_queued prev t Status.cancelled none now q at waits in
          let (p, how) =
            leave-by_player t Status.cancelled none now q k x
              (subst (λ (r : Queue). lookup k r.by_player ≡ some x) ended f) in
          let x_id : x ≡ t.id = some_eq (sym p ∙ e) ∙ sym (v.own prev t at).0 in
          absurd (elim how [
            | inl missing ↦ true_ne_false named missing
            | inr ne ↦ true_ne_false ((string_eq.beq_iff x t.id).1 x_id) ne
          ])
    ]

pub cancel_players-Cleared :
    (ks : List String) (j : String) (now : ℕ) (q : Queue)
    → Inv q
    → Inv (cancel_players ks now q)
      × ((k : String) → contains k ks ≡ true → lookup k (cancel_players ks now q).by_player ≡ none)
      × ((i x : String)
          → lookup i (cancel_players ks now q).by_player ≡ some x
          → lookup i q.by_player ≡ some x)
      × (lookup j q.tickets ≡ none → lookup j (cancel_players ks now q).tickets ≡ none)
unfolding cancel_players
cancel_players-Cleared [] j now q v = (v, (λ k h. absurd (cc)), (λ i x h. h), (λ h. h))
cancel_players-Cleared (k ∷ ks) j now q v =
    let c = cancel_one k j now q (lookup k q.by_player) v refl in
    let (w, n, f, g) = cancel_players-Cleared ks j now _ c.inv in
    (
      w,
      (λ i h. elim (||-true (string_eq.beq k i) (contains i ks) h) [
        | inr later ↦ n i later
        | inl same ↦ stays_free _ _ k i c.free same (f i)
      ]),
      (λ i x h. c.fewer i x (f i x h)),
      (λ h. g (c.fresh h)),
    )
