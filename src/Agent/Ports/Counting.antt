-- ===== src/Agent/Ports/Counting.antt =====
-- How often a port is in use, through the calls of the pool.
use birdman.Base.{
  ==_iff, All, Bool-cases, IsDistinct, List, Option-cases, [], arith, contains, erase_all,
  if◌then◌else◌, inl, inr, leb, nat_eq, refl, string_eq, subst, true, ℕ, ◌&&◌, ◌+◌, ◌-◌, ◌==◌, ◌∷◌,
  ◌≡◌, ◌≤◌,
}
use birdman.Agent.Ports.{
  Outcome, Pool, acquire, acquire_specific, first_free, granted, refused, release,
}
use birdman.Agent.Ports.Ownership.{Inv, acquire-Inv, acquire_specific-Inv}

-- How often `q` is in use.
unfoldable pub uses : ℕ → List ℕ → ℕ
uses q [] = 0
uses q (p ∷ ps) = (if p == q then 1 else 0) + uses q ps

uses-erase_all :
    (q r : ℕ) (ps : List ℕ) → uses q (erase_all r ps) ≡ (if r == q then 0 else uses q ps)
unfolding uses
uses-erase_all q r [] = ground arith
uses-erase_all q r (p ∷ ps) = ground (arith, uses-erase_all q r ps)

pub uses-IsDistinct :
    (q : ℕ) (ps : List ℕ) → IsDistinct ps → uses q ps ≡ (if contains q ps then 1 else 0)
unfolding uses
uses-IsDistinct q [] h = refl
uses-IsDistinct q (p ∷ ps) h = ground (arith, uses-IsDistinct q ps h.1)

pub All_contains : (P : ℕ → Type 0) (q : ℕ) (ps : List ℕ) → All P ps → contains q ps ≡ true → P q
All_contains P q [] h e = cc
All_contains P q (p ∷ ps) h e = elim (Bool-cases (p == q)) [
  | inl same ↦ subst P ((==_iff p q).0 same) h.0
  | inr other ↦ All_contains P q ps h.1 (rw other at e)
]

-- `Release` of a port that is in use frees that port and no other.
pub release-uses :
    (p : Pool) (r q : ℕ)
    → Inv p
    → contains r p.in_use ≡ true
    → uses q (release p r).0.in_use + (if r == q then 1 else 0) ≡ uses q p.in_use
unfolding release
release-uses p r q v h =
    let within : (p.from ≤ r) × (r ≤ p.to) = All_contains _ r p.in_use v.within h in
    let once = uses-IsDistinct q p.in_use v.distinct in ground (arith, uses-erase_all q r p.in_use)

-- A call of `Acquire` or of `AcquireSpecific` takes the port that it grants and no other, and
-- nothing if it is refused.
abbrev pub Takes : Pool → Pool × Outcome → Type 0
Takes p (p', granted r) =
    Inv p' × ((q : ℕ) → uses q p'.in_use ≡ uses q p.in_use + (if r == q then 1 else 0))
Takes p (p', refused e) = p' ≡ p

pub acquire-Takes : (p : Pool) → Inv p → Takes p (acquire p)
unfolding acquire uses
acquire-Takes p v =
    let kept = acquire-Inv p v in
    elim (Option-cases (first_free p.in_use (p.to + 1 - p.from) p.from)) [
      | inl e ↦ rw (e, acquire) refl
      | inr (r, e) ↦ rw (e, acquire) ((rw (e, acquire) at kept), λ q. omega arith)
    ]

pub acquire_specific-Takes : (p : Pool) (w : ℕ) → Inv p → Takes p (acquire_specific p w)
unfolding acquire_specific uses
acquire_specific-Takes p w v =
    let kept = acquire_specific-Inv p w v in
    elim (Bool-cases (leb p.from w && leb w p.to)) [
      | inr outside ↦ rw (outside, acquire_specific) refl
      | inl inside ↦ elim (Bool-cases (contains w p.in_use)) [
        | inl taken ↦ rw (inside, taken, acquire_specific) refl
        | inr free ↦
            rw (inside, free, acquire_specific)
              ((rw (inside, free, acquire_specific) at kept), λ q. omega arith)
      ]
    ]
