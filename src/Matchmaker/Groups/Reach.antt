-- ===== src/Matchmaker/Groups/Reach.antt =====
-- The table of reached sums: sound and complete for the tickets behind an anchor.
use mathlib.Core.List.{append-nil, append_assoc}
use birdman.Base.{
  ==_iff, All, All-append, Bool-cases, List, Option-cases, [], ap, arith, inl, inr, leb, leb→le,
  lookup, nat_eq, none, refl, some, string_eq, subst, ℕ, ◌++◌, ◌+◌, ◌==◌, ◌∙◌, ◌∷◌, ◌≡◌, ◌≢◌, ◌≤◌,
}
use birdman.Matchmaker.Groups.{Qt, Reached, extend, group_seats, grow, seats, updates}
use birdman.Matchmaker.Groups.Subsets.{
  Sub, Sub-append, Sub-snoc, Sub-snoc_cases, group_seats-append, stop,
}

group_seats-snoc :
    (g : List Qt) (next : Qt) → group_seats (g ++ next ∷ []) ≡ group_seats g + seats next
unfolding group_seats
group_seats-snoc g next = omega (arith, group_seats-append g (next ∷ []))

-- An entry is the anchor with a selection of the tickets seen, under its sum, and it fits.
abbrev pub Sound : ℕ → Qt → List Qt → ℕ × List Qt → Type 0
Sound size first seen e =
    (s : List Qt) × (e.1 ≡ first ∷ s) × Sub s seen × (e.0 ≡ group_seats e.1) × (e.0 ≤ size)

-- Every sum that some selection makes, with the anchor, was reached.
abbrev pub IsComplete : ℕ → Qt → List Qt → Reached → Type 0
IsComplete size first seen reach =
    (s : List Qt)
    → Sub s seen
    → group_seats (first ∷ s) ≤ size
    → lookup (group_seats (first ∷ s)) reach ≢ none

Sound-snoc :
    (size : ℕ) (first : Qt) (seen : List Qt) (next : Qt) (e : ℕ × List Qt)
    → Sound size first seen e
    → Sound size first (seen ++ next ∷ []) e
Sound-snoc size first seen next e (s, p, h, q, b) = (s, p, Sub-append (next ∷ []) h, q, b)

All-Sound-snoc :
    (size : ℕ) (first : Qt) (seen : List Qt) (next : Qt) (reach : Reached)
    → All (Sound size first seen) reach
    → All (Sound size first (seen ++ next ∷ [])) reach
All-Sound-snoc size first seen next [] h = tt
All-Sound-snoc size first seen next (e ∷ es) h =
    (Sound-snoc size first seen next e h.0, All-Sound-snoc size first seen next es h.1)

join-Sound :
    (size : ℕ) (first : Qt) (seen : List Qt) (next : Qt) (n : ℕ) (g : List Qt)
    → Sound size first seen (n, g)
    → n + seats next ≤ size
    → Sound size first (seen ++ next ∷ []) (n + seats next, g ++ next ∷ [])
unfolding group_seats
join-Sound size first seen next n g (s, p, h, q, b) fits = (
  s ++ next ∷ [],
  ap (λ z. z ++ next ∷ []) p,
  Sub-snoc next h,
  omega (arith, group_seats-append g (next ∷ [])),
  fits,
)

updates-Sound :
    (size : ℕ) (first : Qt) (seen : List Qt) (reach : Reached) (next : Qt) (more : Reached)
    → All (Sound size first seen) more
    → All (Sound size first (seen ++ next ∷ [])) (updates size reach next more)
unfolding updates
updates-Sound size first seen reach next [] h = tt
updates-Sound size first seen reach next ((n, g) ∷ more) h =
    let rest = updates-Sound size first seen reach next more h.1 in
    elim (Option-cases (lookup (n + seats next) reach)) [
      | inr (w, e) ↦ rw (e, updates) rest
      | inl e ↦ elim (Bool-cases (leb (n + seats next) size)) [
        | inr f ↦ rw (e, updates) (rw f rest)
        | inl f ↦
            rw (e, updates) (rw f (join-Sound size first seen next n g h.0 (leb→le _ _ f), rest))
      ]
    ]

lookup-append : (k : ℕ) (xs ys : Reached) → lookup k xs ≢ none → lookup k (xs ++ ys) ≢ none
lookup-append k [] ys h = absurd (h refl)
lookup-append k ((n, g) ∷ xs) ys h = ground (arith, lookup-append k xs ys)

lookup-append_none : (k : ℕ) (xs ys : Reached) → lookup k ys ≢ none → lookup k (xs ++ ys) ≢ none
lookup-append_none k [] ys h = h
lookup-append_none k ((n, g) ∷ xs) ys h = ground (arith, lookup-append_none k xs ys)

lookup-updates :
    (size : ℕ) (reach : Reached) (next : Qt) (n : ℕ) (more : Reached)
    → lookup n more ≢ none
    → lookup (n + seats next) reach ≡ none
    → n + seats next ≤ size
    → lookup (n + seats next) (updates size reach next more) ≢ none
unfolding updates
lookup-updates size reach next n [] h e f = absurd (h refl)
lookup-updates size reach next n ((m, g) ∷ more) h e f =
    ground (arith, lookup-updates size reach next n more)

extend-IsComplete :
    (size : ℕ) (first : Qt) (seen : List Qt) (reach : Reached) (next : Qt)
    → IsComplete size first seen reach
    → IsComplete size first (seen ++ next ∷ []) (extend size reach next)
unfolding extend
extend-IsComplete size first seen reach next c s h fits = elim (Sub-snoc_cases s seen next h) [
  | inl k ↦
      lookup-append (group_seats (first ∷ s)) reach (updates size reach next reach) (c s k fits)
  | inr (s', p, k) ↦ joined s' p k
]
  where
    joined :
        (s' : List Qt)
        → s ≡ s' ++ next ∷ []
        → Sub s' seen
        → lookup (group_seats (first ∷ s)) (reach ++ updates size reach next reach) ≢ none
    joined s' p k =
        let total : group_seats (first ∷ s) ≡ group_seats (first ∷ s') + seats next =
          ap (λ z. group_seats (first ∷ z)) p ∙ group_seats-snoc (first ∷ s') next in
        let before = c s' k (omega arith) in
        elim (Option-cases (lookup (group_seats (first ∷ s') + seats next) reach)) [
          | inr (g, e) ↦
              rw total
                (lookup-append _ reach (updates size reach next reach) (λ z. absurd (cc (e, z))))
          | inl e ↦ rw total (
              lookup-append_none _ reach (updates size reach next reach) (
                lookup-updates size reach next (group_seats (first ∷ s')) reach before e
                  (omega arith)))
        ]

All-append_of :
    (size : ℕ) (first : Qt) (seen : List Qt) (reach : Reached) (next : Qt)
    → All (Sound size first seen) reach
    → All (Sound size first (seen ++ next ∷ [])) (extend size reach next)
unfolding extend
All-append_of size first seen reach next h =
    All-append (Sound size first (seen ++ next ∷ [])) reach (updates size reach next reach)
      (All-Sound-snoc size first seen next reach h)
      (updates-Sound size first seen reach next reach h)

-- What the loop over the tickets behind the anchor ends with.
pub record Grown (size : ℕ) (first : Qt) (all : List Qt) (reach : Reached) : Type 0 where
  pub sound : All (Sound size first all) reach
  pub complete : lookup size reach ≡ none → IsComplete size first all reach

All-Sound-append :
    (size : ℕ) (first : Qt) (seen more : List Qt) (reach : Reached)
    → All (Sound size first seen) reach
    → All (Sound size first (seen ++ more)) reach
All-Sound-append size first seen more [] h = tt
All-Sound-append size first seen more (e ∷ es) ((s, p, k, q, b), hs) =
    ((s, p, Sub-append more k, q, b), All-Sound-append size first seen more es hs)

grow-Grown :
    (size : ℕ) (first : Qt) (seen : List Qt) (reach : Reached) (rest : List Qt)
    → All (Sound size first seen) reach
    → IsComplete size first seen reach
    → Grown size first (seen ++ rest) (grow size reach rest)
unfolding grow
grow-Grown size first seen reach [] h c =
    rw (append-nil seen) (record { sound = h; complete = λ _. c })
grow-Grown size first seen reach (next ∷ rest) h c =
    let wider = extend size reach next in
    let h' = All-append_of size first seen reach next h in
    let c' = extend-IsComplete size first seen reach next c in
    let e : (seen ++ next ∷ []) ++ rest ≡ seen ++ next ∷ rest =
      append_assoc seen (next ∷ []) rest in
    elim (Option-cases (lookup size wider)) [
      | inl miss ↦
          rw (miss, grow)
            (subst (λ all. Grown size first all (grow size wider rest)) e
              (grow-Grown size first (seen ++ next ∷ []) wider rest h' c'))
      | inr (g, hit) ↦
          rw (hit, grow)
            (record {
              sound =
                  subst (λ all. All (Sound size first all) wider) e
                    (All-Sound-append size first (seen ++ next ∷ []) rest wider h');
              complete = λ miss. absurd (cc (hit, miss));
            })
    ]

-- The table that `pack` has for an anchor that fits, over all the tickets behind it.
pub grow_from_anchor :
    (size : ℕ) (first : Qt) (rest : List Qt)
    → seats first ≤ size
    → Grown size first rest (grow size ((seats first, first ∷ []) ∷ []) rest)
unfolding group_seats
grow_from_anchor size first rest fits =
    grow-Grown size first [] ((seats first, first ∷ []) ∷ []) rest
      ((([], refl, stop, omega arith, fits), tt)) alone
  where
    alone : IsComplete size first [] ((seats first, first ∷ []) ∷ [])
    alone [] stop b = ground arith
    alone (_ ∷ _) h b = elim h [ ]

pub lookup-Sound :
    (size : ℕ) (first : Qt) (all : List Qt) (reach : Reached) (k : ℕ) {g : List Qt}
    → All (Sound size first all) reach
    → lookup k reach ≡ some g
    → Sound size first all (k, g)
lookup-Sound size first all [] k h e = absurd (cc)
lookup-Sound size first all ((n, w) ∷ reach) k {g} h e = elim (Bool-cases (n == k)) [
  | inl hit ↦
      let q : w ≡ g = ground (arith, e, hit) in
      subst (λ (z : ℕ). Sound size first all (z, g)) ((==_iff n k).0 hit)
        (subst (λ (y : List Qt). Sound size first all (n, y)) q h.0)
  | inr miss ↦ lookup-Sound size first all reach k h.1 (ground (arith, e, miss))
]
