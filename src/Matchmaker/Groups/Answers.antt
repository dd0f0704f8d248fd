-- ===== src/Matchmaker/Groups/Answers.antt =====
-- All that `pack` can answer: full groups, partial ones, and none.
use birdman.Base.{
  All, Bool-cases, List, Option-cases, [], ap, arith, false, if◌then◌else◌, inl, inr, leb, lookup,
  ltb, nat_eq, refl, string_eq, subst, sym, true, ℕ, ◌&&◌, ◌<◌, ◌↔◌, ◌∙◌, ◌∷◌, ◌≡◌, ◌≤◌, ◌⊎◌,
}
use birdman.Matchmaker.Groups.{
  Qt, QueuePolicy, Reached, best_partial, group_seats, grow, older, pack, pack_loop, seats,
  sort_slice, waited,
}
use birdman.Matchmaker.Groups.Subsets.{Sub, take}
use birdman.Matchmaker.Groups.Reach.{Sound, grow_from_anchor}
use birdman.Matchmaker.Groups.Packing.{
  Full-anchor, IsFull, IsFull-skip, anchored, fits-le, missed, pack_loop-IsFull, skipped,
}

-- Behind the first anchor the loop answers with a full selection or with the partial it carries.
pack_loop_later :
    (size now : ℕ) (policy : QueuePolicy) (partial xs : List Qt)
    → IsFull size xs (pack_loop size policy now false partial xs)
      ⊎ (pack_loop size policy now false partial xs ≡ partial)
unfolding pack_loop
pack_loop_later size now policy partial [] = inr refl
pack_loop_later size now policy partial (first ∷ rest) =
    elim (Bool-cases (ltb size (seats first))) [
      | inl large ↦
          rw (skipped size now policy false partial first rest large)
            (further (pack_loop_later size now policy partial rest))
      | inr fits ↦
          elim (Option-cases (lookup size (grow size ((seats first, first ∷ []) ∷ []) rest))) [
            | inr (g, hit) ↦
                rw (anchored size now policy false partial first rest fits hit)
                  (inl (Full-anchor size first rest (fits-le size first fits) hit).2)
            | inl miss ↦
                rw (fits, miss, pack_loop) (further (pack_loop_later size now policy partial rest))
          ]
    ]
  where
    further :
        {r : List Qt}
        → IsFull size rest r ⊎ (r ≡ partial)
        → IsFull size (first ∷ rest) r ⊎ (r ≡ partial)
    further (inl full) = inl (IsFull-skip full)
    further (inr same) = inr same

best_partial_better :
    (policy : QueuePolicy) (best : ℕ × List Qt) (n : ℕ) (g : List Qt) (more : Reached)
    → (leb policy.minimum_size n && ltb best.0 n) ≡ true
    → best_partial policy best ((n, g) ∷ more) ≡ best_partial policy (n, g) more
unfolding best_partial
best_partial_better policy best n g more h =
    ap (λ b. best_partial policy (if b then (n, g) else best) more) h

best_partial_worse :
    (policy : QueuePolicy) (best : ℕ × List Qt) (n : ℕ) (g : List Qt) (more : Reached)
    → (leb policy.minimum_size n && ltb best.0 n) ≡ false
    → best_partial policy best ((n, g) ∷ more) ≡ best_partial policy best more
unfolding best_partial
best_partial_worse policy best n g more h =
    ap (λ b. best_partial policy (if b then (n, g) else best) more) h

-- The largest partial group is one of the table's, of the minimum size at least, or the one before.
best_partial-Sound :
    (size : ℕ) (first : Qt) (all : List Qt) (policy : QueuePolicy) (best : ℕ × List Qt)
    (reach : Reached)
    → All (Sound size first all) reach
    → (best_partial policy best reach ≡ best)
      ⊎ (Sound size first all (best_partial policy best reach)
          × (policy.minimum_size ≤ (best_partial policy best reach).0))
best_partial-Sound size first all policy best [] h = inl (unfold best_partial in refl)
best_partial-Sound size first all policy best ((n, g) ∷ more) h =
    elim (Bool-cases (leb policy.minimum_size n && ltb best.0 n)) [
      | inr worse ↦
          rw (best_partial_worse policy best n g more worse)
            (best_partial-Sound size first all policy best more h.1)
      | inl better ↦
          rw (best_partial_better policy best n g more better)
            (elim (best_partial-Sound size first all policy (n, g) more h.1) [
              | inr found ↦ inr found
              | inl same ↦ inr (
                  subst (λ e. Sound size first all e × (policy.minimum_size ≤ e.0)) (sym same)
                    (h.0, ground (arith, better)))
            ])
    ]

-- A group that does not fill the size: the oldest ticket has waited as long as the policy wants, it
-- leads the group, and the group has the minimum size at least and less than the full one at most.
pub record IsPartial (size now : ℕ) (policy : QueuePolicy) (xs group : List Qt) : Type 0 where
  pub oldest : Qt
  pub others : List Qt
  pub tickets : xs ≡ oldest ∷ others
  pub old : waited policy now oldest ≡ true
  pub chosen : (s : List Qt) × (group ≡ oldest ∷ s) × Sub s others
  pub within : (policy.minimum_size ≤ group_seats group) × (group_seats group ≤ size)

Partial-of :
    (size now : ℕ) (policy : QueuePolicy) (first : Qt) (rest : List Qt)
    → seats first ≤ size
    → waited policy now first ≡ true
    → let p = (best_partial policy (0, []) (grow size ((seats first, first ∷ []) ∷ []) rest)).1 in
      (p ≡ []) ⊎ IsPartial size now policy (first ∷ rest) p
Partial-of size now policy first rest fits old =
    elim (best_partial-Sound size first rest policy (0, [])
      (grow size ((seats first, first ∷ []) ∷ []) rest)
      (grow_from_anchor size first rest fits).sound) [
        | inl same ↦ inl (ap (λ (e : ℕ × List Qt). e.1) same)
        | inr ((s, p, h, q, b), m) ↦ inr (record {
          oldest = first;
          others = rest;
          tickets = refl;
          old = old;
          chosen = (s, p, h);
          within = (omega arith, omega arith);
        })
      ]

abbrev pub Answers : ℕ → ℕ → QueuePolicy → List Qt → List Qt → Type 0
Answers size now policy xs group =
    IsFull size xs group ⊎ ((group ≡ []) ⊎ IsPartial size now policy xs group)

pack_loop-Answers :
    (size now : ℕ) (policy : QueuePolicy) (xs : List Qt)
    → Answers size now policy xs (pack_loop size policy now true [] xs)
unfolding pack_loop
pack_loop-Answers size now policy [] = inr (inl refl)
pack_loop-Answers size now policy (first ∷ rest) = elim (Bool-cases (ltb size (seats first))) [
  | inl large ↦
      rw (skipped size now policy true [] first rest large)
        (elim (pack_loop_later size now policy [] rest) [
          | inl full ↦ inl (IsFull-skip full)
          | inr same ↦ inr (inl same)
        ])
  | inr fits ↦ elim (Option-cases (lookup size (grow size ((seats first, first ∷ []) ∷ []) rest))) [
    | inr (g, hit) ↦
        rw (anchored size now policy true [] first rest fits hit)
          (inl (Full-anchor size first rest (fits-le size first fits) hit).2)
    | inl miss ↦
        let (kept, same, how) = missed size now policy true [] first rest fits miss in
        rw same
          (carried kept (fits-le size first fits) how (pack_loop_later size now policy kept rest))
  ]
]
  where
    carried :
        {r : List Qt} (kept : List Qt)
        → seats first ≤ size
        → (kept ≡ [])
          ⊎ ((waited policy now first ≡ true)
              × (kept
                  ≡ (best_partial policy
                      (0, [])
                      (grow size ((seats first, first ∷ []) ∷ []) rest)).1))
        → IsFull size rest r ⊎ (r ≡ kept)
        → Answers size now policy (first ∷ rest) r
    carried kept fits how (inl full) = inl (IsFull-skip full)
    carried kept fits (inl e) (inr same) = inr (inl (same ∙ e))
    carried kept fits (inr (old, e)) (inr same) = inr (
        subst (λ z. (z ≡ []) ⊎ IsPartial size now policy (first ∷ rest) z) (sym (same ∙ e))
          (Partial-of size now policy first rest fits old))

-- What `pack` answers is a selection of the eligible tickets, in their order of age, that fills the
-- size; or nothing; or a partial group led by the oldest ticket, which has waited long enough.
pub pack-Answers :
    (eligible : List Qt) (size : ℕ) (policy : QueuePolicy) (now : ℕ)
    → Answers size now policy (sort_slice older eligible) (pack eligible size policy now)
unfolding pack
pack-Answers eligible size policy now =
    pack_loop-Answers size now policy (sort_slice older eligible)

Full-back :
    {size now : ℕ} {policy : QueuePolicy} {xs group : List Qt}
    → Answers size now policy xs group
    → group_seats group ≡ size
    → 0 < size
    → (s : List Qt) × Sub s xs × (group_seats s ≡ size)
unfolding group_seats
Full-back {group = group} (inl full) e wanted = (group, full.0, full.1)
Full-back (inr (inl none_found)) e wanted = absurd (omega (arith, ap group_seats none_found))
Full-back {group = group} (inr (inr p)) e wanted = (
  group,
  subst (λ xs. Sub group xs) (sym p.tickets)
      (subst (λ z. Sub z (p.oldest ∷ p.others)) (sym p.chosen.1) (take p.chosen.2)),
  e,
)

-- Whatever tickets are eligible: `pack` fills the size exactly whenever some selection of them
-- does, so no order of parties traps it, and it fills it only with such a selection.
pub pack-full :
    (eligible : List Qt) (size : ℕ) (policy : QueuePolicy) (now : ℕ)
    → 0 < size
    → ((s : List Qt) × Sub s (sort_slice older eligible) × (group_seats s ≡ size))
      ↔ (group_seats (pack eligible size policy now) ≡ size)
unfolding pack
pack-full eligible size policy now wanted = (
  λ f.
      (pack_loop-IsFull size now policy true [] (sort_slice older eligible) f.0 wanted
        (f.1, f.2)).1,
  λ e. Full-back (pack-Answers eligible size policy now) e wanted,
)
