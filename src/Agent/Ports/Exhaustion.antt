-- ===== src/Agent/Ports/Exhaustion.antt =====
-- Which port is granted, when the pool runs dry, and how many ports can be out at once.
use birdman.Base.{
  ==_iff, All, IsDistinct, List, Option-cases, [], arith, contains, erase_all, false, inl, inr,
  length, nat_eq, none, refl, some, string_eq, suc, true, zero, ℕ, ℤ, ◌+◌, ◌-◌, ◌<◌, ◌↔◌, ◌∷◌, ◌≡◌,
  ◌≤◌,
}
use birdman.Agent.Ports.{
  Call, Pool, acquire, capacity, exhausted, first_free, granted, in_use_count, new, refused, run,
}
use birdman.Agent.Ports.Ownership.{
  IsWithin, erase_all-IsDistinct, erase_all-absent, first_free-some, run-new-Inv,
}

-- The search passes over taken ports only.
first_free-below :
    (used : List ℕ) (left port q r : ℕ)
    → first_free used left port ≡ some q
    → port ≤ r
    → r < q
    → contains r used ≡ true
unfolding first_free
first_free-below used zero port q r h a b = cc
first_free-below used (suc left) port q r h a b =
    ground (arith, first_free-below used left (port + 1) q r)

first_free-none :
    (used : List ℕ) (left port r : ℕ)
    → first_free used left port ≡ none
    → port ≤ r
    → r < port + left
    → contains r used ≡ true
unfolding first_free
first_free-none used zero port r h a b = absurd (omega arith)
first_free-none used (suc left) port r h a b =
    ground (arith, first_free-none used left (port + 1) r)

-- `Acquire` grants the lowest free port of the range: every port of the range below the one that
-- it grants is taken.
pub acquire-lowest :
    (p : Pool) (port lower : ℕ)
    → (acquire p).1 ≡ granted port
    → p.from ≤ lower
    → lower < port
    → contains lower p.in_use ≡ true
unfolding acquire
acquire-lowest p port lower h a b =
    ground (arith, first_free-below p.in_use (p.to + 1 - p.from) p.from port lower)

-- `Acquire` fails exactly when every port of the range is taken; the pool is then unchanged.
pub acquire-exhausted :
    (p : Pool)
    → (((acquire p).1 ≡ refused exhausted)
        ↔ ((r : ℕ) → p.from ≤ r → r ≤ p.to → contains r p.in_use ≡ true))
      × ((acquire p).1 ≡ refused exhausted → (acquire p).0 ≡ p)
unfolding acquire
acquire-exhausted p = elim (Option-cases (first_free p.in_use (p.to + 1 - p.from) p.from)) [
  | inl e ↦
      rw (e, acquire)
        (
          (
            (λ _ r a b. first_free-none p.in_use (p.to + 1 - p.from) p.from r e a (omega arith)),
            (λ _. refl),
          ),
          (λ _. refl),
        )
  | inr (q, e) ↦
      let found = first_free-some p.in_use (p.to + 1 - p.from) p.from e in
      rw (e, acquire)
        (
          ((λ h. absurd (cc)), (λ all. absurd (no_free found (all q found.0 (omega arith))))),
          (λ h. cc),
        )
]
  where
    no_free :
        {q : ℕ}
        → (p.from ≤ q) × (q < p.from + (p.to + 1 - p.from)) × (contains q p.in_use ≡ false)
        → contains q p.in_use ≡ true
        → ⊥
    no_free f t = cc

-- Distinct numbers below `n` are at most `n`.
length-erase_all : (a : ℕ) (xs : List ℕ) → IsDistinct xs → length xs ≤ suc (length (erase_all a xs))
length-erase_all a [] d = omega arith
length-erase_all a (x ∷ xs) d =
    ground (arith, length-erase_all a xs d.1, erase_all-absent x xs d.0, ==_iff x a)

abbrev Spans : ℕ → ℕ → List ℕ → Type 0
Spans lo top = All (λ x. (lo ≤ x) × (x < top))

erase_all-Spans :
    (lo n : ℕ) (xs : List ℕ) → Spans lo (lo + suc n) xs → Spans lo (lo + n) (erase_all (lo + n) xs)
erase_all-Spans lo n [] h = tt
erase_all-Spans lo n (x ∷ xs) h = ground (arith, erase_all-Spans lo n xs h.1)

pigeonhole : (n lo : ℕ) (xs : List ℕ) → IsDistinct xs → Spans lo (lo + n) xs → length xs ≤ n
pigeonhole zero lo [] d w = omega arith
pigeonhole zero lo (x ∷ xs) d w = absurd (omega arith)
pigeonhole (suc n) lo xs d w = omega (
  arith,
  length-erase_all (lo + n) xs d,
  pigeonhole n lo (erase_all (lo + n) xs) (erase_all-IsDistinct (lo + n) xs d)
      (erase_all-Spans lo n xs w),
)

IsWithin-Spans :
    (lo n hi : ℕ) (xs : List ℕ) → hi < lo + n → IsWithin lo hi xs → Spans lo (lo + n) xs
IsWithin-Spans lo n hi [] h w = tt
IsWithin-Spans lo n hi (x ∷ xs) h w = ((w.0.0, omega arith), IsWithin-Spans lo n hi xs h w.1)

-- The number of ports that are handed out never passes the capacity of the pool, whatever calls
-- are made on a pool that `New` built.
pub in_use_count-le-capacity :
    (from to : ℤ) (p : Pool) (cs : List Call)
    → new from to ≡ some p
    → in_use_count (run p cs) ≤ capacity (run p cs)
unfolding in_use_count capacity
in_use_count-le-capacity from to p cs h =
    let q = run p cs in
    let v = run-new-Inv from to p cs h in
    pigeonhole (q.to + 1 - q.from) q.from q.in_use v.distinct
      (IsWithin-Spans q.from (q.to + 1 - q.from) q.to q.in_use (omega arith) v.within)
