-- ===== src/Matchmaker/Tick/Overflow.antt =====
-- The median of the round-trip times is an int32 sum before it is a float64
-- (`medianRTT`, master/internal/matchmaker/tick.go): what a sum past 2^31 - 1 does to the choice.
use birdman.Base.{
  Bool-cases, List, String, [], ap, arith, false, if◌then◌else◌, inl, inr, ltb, negsuc, pos, refl,
  some, string_eq, true, ℕ, ℤ, ◌+◌, ◌-◌, ◌<◌, ◌^◌, ◌∙◌, ◌∷◌, ◌≡◌, ◌≢◌, ◌≤◌, ◌⊎◌,
}
use birdman.Matchmaker.Groups.{Qt, group_seats, insert_sorted, sort_slice}
use birdman.Matchmaker.Tick.{Best, add_int32, better, ltb_ℤ, median_of, median_rtt, sample, samples}

two_samples :
    (a b : Qt) (region : String) (x y : ℕ)
    → sample a.regions region ≡ some x
    → sample b.regions region ≡ some y
    → samples (a ∷ b ∷ []) region ≡ x ∷ y ∷ []
unfolding samples
two_samples a b region x y ha hb = rw (ha, hb, samples) refl

wrapped : (x y : ℕ) → 2 ^ 31 ≤ x + y → add_int32 x y ≡ negsuc (2 ^ 32 - (x + y) - 1)
unfolding add_int32
wrapped x y h = ground arith

fits : (x y : ℕ) → x + y < 2 ^ 31 → add_int32 x y ≡ pos (x + y)
unfolding add_int32
fits x y h = ground arith

add_int32_comm : (x y : ℕ) → add_int32 y x ≡ add_int32 x y
unfolding add_int32
add_int32_comm x y =
    let same : y + x ≡ x + y = omega arith in
    ap (λ n. if ltb n (2 ^ 31) then pos n else negsuc (2 ^ 32 - n - 1)) same

median_of_two : (x y : ℕ) → median_of (x ∷ y ∷ []) ≡ add_int32 x y
unfolding median_of sort_slice insert_sorted
median_of_two x y = elim (Bool-cases (ltb y x)) [
  | inl e ↦ rw e (add_int32_comm x y)
  | inr e ↦ rw e refl
]

median_rtt-two :
    (a b : Qt) (region : String) (x y : ℕ)
    → sample a.regions region ≡ some x
    → sample b.regions region ≡ some y
    → median_rtt (a ∷ b ∷ []) region ≡ add_int32 x y
unfolding median_rtt
median_rtt-two a b region x y ha hb = rw (two_samples a b region x y ha hb) (median_of_two x y)

-- A group of as many seats as the best, in a queue with no parties, and its median `med`.
as_many :
    (best : Best) (group : List Qt) (med : ℤ) (m : ℕ)
    → best.median ≡ pos m
    → best.region ≢ ""
    → group_seats group ≡ group_seats best.group
    → better false best group med ≡ ltb_ℤ med (pos m)
unfolding better
as_many best group med m e named same = ground (arith, string_eq.beq_iff best.region "")

-- Two tickets with round-trip times `x` and `y`, in a queue with no parties, against a best group of
-- as many seats with a right median, in halves of a millisecond. Below 2^31 their median is the sum
-- and the smaller median wins; from there on the median is negative, and the two always win.
pub median_rtt-overflow :
    (a b : Qt) (region : String) (x y : ℕ) (best : Best) (m : ℕ)
    → sample a.regions region ≡ some x
    → sample b.regions region ≡ some y
    → best.median ≡ pos m
    → best.region ≢ ""
    → group_seats (a ∷ b ∷ []) ≡ group_seats best.group
    → let med = median_rtt (a ∷ b ∷ []) region in
      ((x + y < 2 ^ 31)
        × (med ≡ pos (x + y))
        × (better false best (a ∷ b ∷ []) med ≡ ltb (x + y) m))
      ⊎ ((2 ^ 31 ≤ x + y)
          × (med ≡ negsuc (2 ^ 32 - (x + y) - 1))
          × (better false best (a ∷ b ∷ []) med ≡ true))
median_rtt-overflow a b region x y best m ha hb e named same =
    let two = median_rtt-two a b region x y ha hb in
    elim (Bool-cases (ltb (x + y) (2 ^ 31))) [
      | inl small ↦
          let med = two ∙ fits x y (ground arith) in
          inl (
            ground arith,
            med,
            ap (λ z. better false best (a ∷ b ∷ []) z) med
                ∙ as_many best (a ∷ b ∷ []) (pos (x + y)) m e named same,
          )
      | inr large ↦
          let med = two ∙ wrapped x y (ground arith) in
          inr (
            ground arith,
            med,
            ap (λ z. better false best (a ∷ b ∷ []) z) med
                ∙ as_many best (a ∷ b ∷ []) (negsuc (2 ^ 32 - (x + y) - 1)) m e named same,
          )
    ]
