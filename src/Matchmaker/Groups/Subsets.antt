-- ===== src/Matchmaker/Groups/Subsets.antt =====
-- Selections of a list in its order, and the seats that they take.
use birdman.Base.{List, [], ap, arith, inl, inr, refl, ◌++◌, ◌+◌, ◌∷◌, ◌≡◌, ◌⊎◌}
use birdman.Matchmaker.Groups.{Qt, group_seats}

-- `Sub s xs`: `s` is what is left of `xs` after some items are crossed out.
pub data Sub {ℓ} {A : Type ℓ} : List A → List A → Type ℓ where
  stop : Sub [] []
  skip : {x : A} {s xs : List A} → Sub s xs → Sub s (x ∷ xs)
  take : {x : A} {s xs : List A} → Sub s xs → Sub (x ∷ s) (x ∷ xs)

module _ {ℓ} {A : Type ℓ} where
  pub Sub-nil : (xs : List A) → Sub [] xs
  Sub-nil [] = stop
  Sub-nil (x ∷ xs) = skip (Sub-nil xs)

  pub Sub-append : {s xs : List A} (ys : List A) → Sub s xs → Sub s (xs ++ ys)
  Sub-append ys stop = Sub-nil ys
  Sub-append ys (skip h) = skip (Sub-append ys h)
  Sub-append ys (take h) = take (Sub-append ys h)

  pub Sub-snoc : {s xs : List A} (x : A) → Sub s xs → Sub (s ++ x ∷ []) (xs ++ x ∷ [])
  Sub-snoc x stop = take stop
  Sub-snoc x (skip h) = skip (Sub-snoc x h)
  Sub-snoc x (take h) = take (Sub-snoc x h)

  -- A selection of a list with one more item at its end leaves the item out or ends with it.
  pub Sub-snoc_cases :
      (s xs : List A) (x : A)
      → Sub s (xs ++ x ∷ [])
      → Sub s xs ⊎ ((s' : List A) × (s ≡ s' ++ x ∷ []) × Sub s' xs)
  Sub-snoc_cases s [] x (skip h) = inl h
  Sub-snoc_cases (y ∷ s) [] x (take stop) = inr ([], refl, stop)
  Sub-snoc_cases s (y ∷ xs) x (skip h) = elim (Sub-snoc_cases s xs x h) [
    | inl k ↦ inl (skip k)
    | inr (s', e, k) ↦ inr (s', e, skip k)
  ]
  Sub-snoc_cases (z ∷ s) (y ∷ xs) x (take h) = elim (Sub-snoc_cases s xs x h) [
    | inl k ↦ inl (take k)
    | inr (s', e, k) ↦ inr (y ∷ s', ap (◌∷◌ y) e, take k)
  ]

pub group_seats-append :
    (xs ys : List Qt) → group_seats (xs ++ ys) ≡ group_seats xs + group_seats ys
unfolding group_seats
group_seats-append [] ys = omega arith
group_seats-append (x ∷ xs) ys = omega (arith, group_seats-append xs ys)
