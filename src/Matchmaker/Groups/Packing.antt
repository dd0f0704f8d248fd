-- ===== src/Matchmaker/Groups/Packing.antt =====
-- What `pack` answers, against all selections of the eligible tickets.
use birdman.Base.{
  &&-true, Bool, Bool-cases, List, Option-cases, [], arith, false, inl, inr, lookup, ltb, nat_eq,
  none, refl, some, string_eq, subst, sym, true, ℕ, ◌&&◌, ◌<◌, ◌∷◌, ◌≡◌, ◌≤◌, ◌⊎◌,
}
use birdman.Matchmaker.Groups.{
  Qt, QueuePolicy, best_partial, group_seats, grow, older, pack, pack_loop, seats, sort_slice,
  waited,
}
use birdman.Matchmaker.Groups.Subsets.{Sub, skip, stop, take}
use birdman.Matchmaker.Groups.Reach.{grow_from_anchor, lookup-Sound}

-- A selection of the tickets that takes the wanted number of seats exactly.
abbrev pub IsFull : ℕ → List Qt → List Qt → Type 0
IsFull size xs s = Sub s xs × (group_seats s ≡ size)

pub Full-anchor :
    (size : ℕ) (first : Qt) (rest : List Qt) {g : List Qt}
    → seats first ≤ size
    → lookup size (grow size ((seats first, first ∷ []) ∷ []) rest) ≡ some g
    → (s : List Qt) × (g ≡ first ∷ s) × IsFull size (first ∷ rest) g
Full-anchor size first rest fits e =
    let grown = grow_from_anchor size first rest fits in
    let (s, p, h, q, b) = lookup-Sound size first rest _ size grown.sound e in
    (s, p, (subst (λ z. Sub z (first ∷ rest)) (sym p) (take h), sym q))

-- The answer of the loop from an anchor that is skipped, or whose table lacks the full sum.
pub skipped :
    (size now : ℕ) (policy : QueuePolicy) (at_first : Bool) (partial : List Qt) (first : Qt)
    (rest : List Qt)
    → ltb size (seats first) ≡ true
    → pack_loop size policy now at_first partial (first ∷ rest)
      ≡ pack_loop size policy now false partial rest
unfolding pack_loop
skipped size now policy at_first partial first rest large = rw (large, pack_loop)

pub anchored :
    (size now : ℕ) (policy : QueuePolicy) (at_first : Bool) (partial : List Qt) (first : Qt)
    (rest : List Qt) {g : List Qt}
    → ltb size (seats first) ≡ false
    → lookup size (grow size ((seats first, first ∷ []) ∷ []) rest) ≡ some g
    → pack_loop size policy now at_first partial (first ∷ rest) ≡ g
unfolding pack_loop
anchored size now policy at_first partial first rest fits hit = rw (fits, hit, pack_loop)

pub missed :
    (size now : ℕ) (policy : QueuePolicy) (at_first : Bool) (partial : List Qt) (first : Qt)
    (rest : List Qt)
    → ltb size (seats first) ≡ false
    → lookup size (grow size ((seats first, first ∷ []) ∷ []) rest) ≡ none
    → (kept : List Qt) × (pack_loop size policy now at_first partial (first ∷ rest)
        ≡ pack_loop size policy now false kept rest)
      × ((kept ≡ partial)
          ⊎ ((waited policy now first ≡ true)
              × (kept
                  ≡ (best_partial policy
                      (0, [])
                      (grow size ((seats first, first ∷ []) ∷ []) rest)).1)))
unfolding pack_loop
missed size now policy at_first partial first rest fits miss =
    elim (Bool-cases (at_first && waited policy now first)) [
      | inl old ↦ (
        (best_partial policy (0, []) (grow size ((seats first, first ∷ []) ∷ []) rest)).1,
        rw (fits, miss, old, pack_loop),
        inr ((&&-true at_first _ old).1, refl),
      )
      | inr young ↦ (partial, rw (fits, miss, young, pack_loop), inl refl)
    ]

pub fits-le : (size : ℕ) (first : Qt) → ltb size (seats first) ≡ false → seats first ≤ size
fits-le size first h = ground arith

pub IsFull-skip :
    {size : ℕ} {first : Qt} {rest g : List Qt} → IsFull size rest g → IsFull size (first ∷ rest) g
IsFull-skip (h, e) = (skip h, e)

-- If some selection fills the size, the loop returns one that does, whatever partial it carries.
pub pack_loop-IsFull :
    (size now : ℕ) (policy : QueuePolicy) (at_first : Bool) (partial xs s : List Qt)
    → 0 < size
    → IsFull size xs s
    → IsFull size xs (pack_loop size policy now at_first partial xs)
unfolding group_seats
pack_loop-IsFull size now policy at_first partial [] [] wanted (stop, e) = absurd (omega arith)
pack_loop-IsFull size now policy at_first partial [] (_ ∷ _) wanted (h, e) = elim h [ ]
pack_loop-IsFull size now policy at_first partial (first ∷ rest) s wanted (h, e) =
    elim (Bool-cases (ltb size (seats first))) [
      | inl large ↦ rw (skipped size now policy at_first partial first rest large) (
          IsFull-skip
            (pack_loop-IsFull size now policy false partial rest s wanted (without large s h e, e)))
      | inr fits ↦
          elim (Option-cases (lookup size (grow size ((seats first, first ∷ []) ∷ []) rest))) [
            | inr (g, hit) ↦
                rw (anchored size now policy at_first partial first rest fits hit)
                  (Full-anchor size first rest (fits-le size first fits) hit).2
            | inl miss ↦
                let (kept, same, _) =
                  missed size now policy at_first partial first rest fits miss in
                rw same (
                  IsFull-skip (
                    pack_loop-IsFull size now policy false kept rest s wanted
                      (unreached fits miss s h e, e)))
          ]
    ]
  where
    without :
        ltb size (seats first) ≡ true
        → (s : List Qt) → Sub s (first ∷ rest)
        → group_seats s ≡ size
        → Sub s rest
    without large s (skip k) e = k
    without large (_ ∷ s) (take k) e = absurd (ground arith)

    unreached :
        ltb size (seats first) ≡ false
        → lookup size (grow size ((seats first, first ∷ []) ∷ []) rest) ≡ none
        → (s : List Qt) → Sub s (first ∷ rest)
        → group_seats s ≡ size
        → Sub s rest
    unreached fits miss s (skip k) e = k
    unreached fits miss (_ ∷ s) (take k) e = absurd (
        (grow_from_anchor size first rest (fits-le size first fits)).complete miss s k (omega arith)
          (subst (λ n. lookup n (grow size ((seats first, first ∷ []) ∷ []) rest) ≡ none) (sym e)
            miss))

-- First come, first served: if the oldest ticket can be part of a full group, it leads the group
-- that `pack` answers, whatever other groups could be formed.
pub pack_serves_oldest :
    (eligible : List Qt) (size : ℕ) (policy : QueuePolicy) (now : ℕ) (oldest : Qt)
    (others s : List Qt)
    → sort_slice older eligible ≡ oldest ∷ others
    → Sub s others
    → group_seats (oldest ∷ s) ≡ size
    → (s' : List Qt) × (pack eligible size policy now ≡ oldest ∷ s')
      × (group_seats (pack eligible size policy now) ≡ size)
unfolding pack group_seats
pack_serves_oldest eligible size policy now oldest others s sorted h e =
    let fits : seats oldest ≤ size = omega arith in
    let fits' : ltb size (seats oldest) ≡ false = ground arith in
    elim (Option-cases (lookup size (grow size ((seats oldest, oldest ∷ []) ∷ []) others))) [
      | inl miss ↦ absurd (
          (grow_from_anchor size oldest others fits).complete miss s h (omega arith) (
            subst (λ n. lookup n (grow size ((seats oldest, oldest ∷ []) ∷ []) others) ≡ none)
              (sym e) miss))
      | inr (g, hit) ↦
          let (s', p, full) = Full-anchor size oldest others fits hit in
          rw sorted (rw (anchored size now policy true [] oldest others fits' hit) (s', p, full.1))
    ]
