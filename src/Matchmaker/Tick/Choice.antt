-- ===== src/Matchmaker/Tick/Choice.antt =====
-- The group that a tick takes: whose offer it is, and that no region offers more seats.
use birdman.Base.{
  All, Bool, Bool-cases, List, String, [], arith, beq_refl, contains, false, inl, inr, keep_if,
  nat_eq, not, refl, string_eq, sym, true, ℕ, ℤ, ◌∷◌, ◌≡◌, ◌≢◌, ◌≤◌, ◌⊎◌,
}
use birdman.Matchmaker.Groups.{Qt, QueuePolicy, group_seats, insert_sorted, sort_slice, str_ltb}
use birdman.Matchmaker.Tick.{
  Best, best_group, best_loop, better, consider, has_parties, no_best, offer, open_list, score,
}

-- What the loop over the regions keeps: a best that is some region's offer, no smaller than those
-- of the regions seen.
record Keeps (P : String → Type 0) (offers : String → List Qt) (seen : List String) (best : Best)
    : Type 0 where
  from :
      (best.region ≡ "")
      ⊎ ((best.region ≢ "") × P best.region × (best.group ≡ offers best.region) × (best.group ≢ []))
  empty : best.region ≡ "" → best.group ≡ []
  largest : All (λ r. group_seats (offers r) ≤ group_seats best.group) seen

All-le_trans :
    (offers : String → List Qt) (seen : List String) (a b : List Qt)
    → group_seats a ≤ group_seats b
    → All (λ r. group_seats (offers r) ≤ group_seats a) seen
    → All (λ r. group_seats (offers r) ≤ group_seats b) seen
All-le_trans offers [] a b h k = tt
All-le_trans offers (r ∷ rs) a b h k = (omega arith, All-le_trans offers rs a b h k.1)

better_larger :
    (parties : Bool) (best : Best) (group : List Qt) (med : ℤ)
    → better parties best group med ≡ true
    → (best.region ≡ "") ⊎ (group_seats best.group ≤ group_seats group)
unfolding better
better_larger parties best group med h = ground (arith, string_eq.beq_iff best.region "")

better_smaller :
    (parties : Bool) (best : Best) (group : List Qt) (med : ℤ)
    → better parties best group med ≡ false
    → group_seats group ≤ group_seats best.group
unfolding better
better_smaller parties best group med h = ground arith

consider-Keeps :
    (P : String → Type 0) (parties : Bool) (offers : String → List Qt) (seen : List String)
    (best : Best) (r : String)
    → (r ≢ "") × P r
    → Keeps P offers seen best
    → (group : List Qt) → offers r ≡ group
    → Keeps P offers (r ∷ seen) (consider parties best r group)
unfolding consider group_seats
consider-Keeps P parties offers seen best r named k [] e = record {
  from = k.from;
  empty = k.empty;
  largest = (rw e (omega arith), k.largest);
}
consider-Keeps P parties offers seen best r named k (t ∷ ts) e =
    elim (Bool-cases (better parties best (t ∷ ts) (score parties (t ∷ ts) r))) [
      | inr worse ↦ rw worse (record {
        from = k.from;
        empty = k.empty;
        largest = (rw e (better_smaller parties best (t ∷ ts) _ worse), k.largest);
      })
      | inl good ↦ rw good (record {
        from = inr (named.0, named.1, sym e, λ z. absurd (cc));
        empty = λ z. absurd (named.0 z);
        largest = (
          rw e (omega arith),
          All-le_trans offers seen best.group (t ∷ ts) (grows good) k.largest,
        );
      })
    ]
  where
    grows :
        better parties best (t ∷ ts) (score parties (t ∷ ts) r) ≡ true
        → group_seats best.group ≤ group_seats (t ∷ ts)
    grows good = elim (better_larger parties best (t ∷ ts) _ good) [
      | inl unset ↦ rw (k.empty unset) (omega arith)
      | inr le ↦ le
    ]

best_loop-Keeps :
    (P : String → Type 0) (parties : Bool) (offers : String → List Qt) (seen : List String)
    (best : Best) (rs : List String)
    → All (λ r. (r ≢ "") × P r) rs
    → Keeps P offers seen best
    → Keeps P offers seen (best_loop parties offers best rs)
      × All (λ r. group_seats (offers r) ≤ group_seats (best_loop parties offers best rs).group) rs
unfolding best_loop
best_loop-Keeps P parties offers seen best [] named k = (k, tt)
best_loop-Keeps P parties offers seen best (r ∷ rs) named k =
    let best' = consider parties best r (offers r) in
    let k' = consider-Keeps P parties offers seen best r named.0 k (offers r) refl in
    let (kept, all) = best_loop-Keeps P parties offers (r ∷ seen) best' rs named.1 k' in
    (
      record { from = kept.from; empty = kept.empty; largest = kept.largest.1 },
      (kept.largest.0, all),
    )

-- A region of `ver_for` that is not exhausted.
abbrev pub IsOpen : List String → List String → String → Type 0
IsOpen ver_for exhausted r = (contains r ver_for ≡ true) × (contains r exhausted ≡ false)

module _ {A : Type 0} (P : A → Type 0) (lt : A → A → Bool) where
  All-insert_sorted : (x : A) (xs : List A) → P x → All P xs → All P (insert_sorted lt x xs)
  unfolding insert_sorted
  All-insert_sorted x [] h k = (h, tt)
  All-insert_sorted x (y ∷ ys) h k = elim (Bool-cases (lt y x)) [
    | inl e ↦ rw e (k.0, All-insert_sorted x ys h k.1)
    | inr e ↦ rw e (h, k)
  ]

  All-insert_sorted-back : (x : A) (xs : List A) → All P (insert_sorted lt x xs) → P x × All P xs
  unfolding insert_sorted
  All-insert_sorted-back x [] h = h
  All-insert_sorted-back x (y ∷ ys) h = elim (Bool-cases (lt y x)) [
    | inl e ↦
        let h' : P y × All P (insert_sorted lt x ys) = rw e at h in
        let (px, rest) = All-insert_sorted-back x ys h'.1 in (px, (h'.0, rest))
    | inr e ↦ let h' : P x × (P y × All P ys) = rw e at h in h'
  ]

  All-sort_slice : (xs : List A) → All P xs → All P (sort_slice lt xs)
  unfolding sort_slice
  All-sort_slice [] h = tt
  All-sort_slice (x ∷ xs) h = All-insert_sorted x (sort_slice lt xs) h.0 (All-sort_slice xs h.1)

  All-sort_slice-back : (xs : List A) → All P (sort_slice lt xs) → All P xs
  unfolding sort_slice
  All-sort_slice-back [] h = tt
  All-sort_slice-back (x ∷ xs) h =
      let (px, rest) = All-insert_sorted-back x (sort_slice lt xs) h in
      (px, All-sort_slice-back xs rest)

  All-keep_if :
      (p : A → Bool) (xs : List A) → All P xs → All (λ x. P x × (p x ≡ true)) (keep_if p xs)
  All-keep_if p [] h = tt
  All-keep_if p (x ∷ xs) h = elim (Bool-cases (p x)) [
    | inl e ↦ rw e ((h.0, e), All-keep_if p xs h.1)
    | inr e ↦ rw e (All-keep_if p xs h.1)
  ]

  All-keep_if-back :
      (p : A → Bool) (xs : List A) → All P (keep_if p xs) → All (λ x. (p x ≡ false) ⊎ P x) xs
  All-keep_if-back p [] h = tt
  All-keep_if-back p (x ∷ xs) h = elim (Bool-cases (p x)) [
    | inl e ↦
        let h' : P x × All P (keep_if p xs) = rw e at h in (inr h'.0, All-keep_if-back p xs h'.1)
    | inr e ↦ let h' : All P (keep_if p xs) = rw e at h in (inl e, All-keep_if-back p xs h')
  ]

All-map {ℓ κ μ} :
    {A : Type ℓ} {P : A → Type κ} {Q : A → Type μ} (f : (x : A) → P x → Q x) (xs : List A)
    → All P xs
    → All Q xs
All-map f [] h = tt
All-map f (x ∷ xs) h = (f x h.0, All-map f xs h.1)

members : (xs : List String) → All (λ r. contains r xs ≡ true) xs
members [] = tt
members (x ∷ xs) = (
  ground (arith, beq_refl x),
  All-map {P = λ r. contains r xs ≡ true} (λ r h. ground (arith, h)) xs (members xs),
)

All-both :
    {A : Type 0} (P Q : A → Type 0) (xs : List A) → All P xs → All Q xs → All (λ x. P x × Q x) xs
All-both P Q [] h k = tt
All-both P Q (x ∷ xs) h k = ((h.0, k.0), All-both P Q xs h.1 k.1)

open_list-IsOpen :
    (ver_for exhausted : List String)
    → All (λ r. r ≢ "") ver_for
    → All (λ r. (r ≢ "") × IsOpen ver_for exhausted r) (open_list ver_for exhausted)
unfolding open_list
open_list-IsOpen ver_for exhausted named =
    All-sort_slice _ str_ltb (keep_if (λ r. not (contains r exhausted)) ver_for) (
      All-map (λ r h. (h.0.0, (h.0.1, ground (arith, h.1))))
        (keep_if (λ r. not (contains r exhausted)) ver_for)
        (All-keep_if (λ r. (r ≢ "") × (contains r ver_for ≡ true)) str_ltb
          (λ r. not (contains r exhausted)) ver_for
          (All-both (λ r. r ≢ "") (λ r. contains r ver_for ≡ true) ver_for named
            (members ver_for))))

open_list_every :
    (P : String → Type 0) (ver_for exhausted : List String)
    → All P (open_list ver_for exhausted)
    → All (λ r. (contains r exhausted ≡ true) ⊎ P r) ver_for
unfolding open_list
open_list_every P ver_for exhausted h =
    All-map (λ r k. elim k [ inl e ↦ inl (ground (arith, e)) | inr q ↦ inr q ]) ver_for
      (All-keep_if-back P str_ltb (λ r. not (contains r exhausted)) ver_for
        (All-sort_slice-back P str_ltb _ h))

-- Where no region of `ver_for` has the empty name: either no region is taken and the group is
-- empty, or a region is taken that is in `ver_for` and not exhausted, and the group is what it
-- offers and not empty. No region of `ver_for` that is not exhausted offers a group with more seats.
pub best_group-largest :
    (pool : List Qt) (size : ℕ) (ver_for exhausted : List String) (widen now : ℕ)
    (policy : QueuePolicy)
    → All (λ r. r ≢ "") ver_for
    → let best = best_group pool size ver_for exhausted widen now policy in
      (((best.0 ≡ "") × (best.1 ≡ []))
        ⊎ ((best.0 ≢ "")
            × IsOpen ver_for exhausted best.0
            × (best.1 ≡ offer pool size widen now policy best.0)
            × (best.1 ≢ [])))
      × All
          (λ r.
            (contains r exhausted ≡ true)
            ⊎ (group_seats (offer pool size widen now policy r) ≤ group_seats best.1))
          ver_for
unfolding best_group
best_group-largest pool size ver_for exhausted widen now policy named =
    let offers = offer pool size widen now policy in
    let regions = open_list ver_for exhausted in
    let (k, all) =
      best_loop-Keeps (IsOpen ver_for exhausted) (has_parties pool) offers [] no_best regions
        (open_list-IsOpen ver_for exhausted named)
        (record { from = inl refl; empty = λ _. refl; largest = tt }) in
    (
      elim k.from [ inl e ↦ inl (e, k.empty e) | inr f ↦ inr f ],
      open_list_every _ ver_for exhausted all,
    )
