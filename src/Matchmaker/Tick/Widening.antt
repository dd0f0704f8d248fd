-- ===== src/Matchmaker/Tick/Widening.antt =====
-- When a ticket may be matched in a region, as its wait grows.
use native.Mathlib.Nat.{le-div_iff_mul-le}
use birdman.Base.{
  Bool-cases, List, String, [], ap, arith, get_elem?, inl, inr, leb, le→leb, nat_eq, refl, some,
  some_eq, string_eq, suc, true, zero, ℕ, ◌*◌, ◌+◌, ◌-◌, ◌/◌, ◌<◌, ◌↔◌, ◌∙◌, ◌∷◌, ◌≡◌, ◌≤◌,
}
use birdman.Matchmaker.Groups.{Qt, RegionPing}
use birdman.Matchmaker.Tick.{among_first, eligible_for, open_regions}

among_first_to :
    (k : ℕ) (rs : List RegionPing) (region : String)
    → among_first k rs region ≡ true
    → (i : ℕ) × (r : RegionPing) × (i < k) × (get_elem? rs i ≡ some r) × (r.region ≡ region)
unfolding among_first
among_first_to k [] region h = absurd (cc)
among_first_to zero (r ∷ rs) region h = absurd (cc)
among_first_to (suc k) (r ∷ rs) region h = elim (Bool-cases (string_eq.beq r.region region)) [
  | inl e ↦ (0, r, omega arith, refl, (string_eq.beq_iff r.region region).0 e)
  | inr ne ↦
      let (i, r', b, g, e) = among_first_to k rs region (ground (arith, h, ne)) in
      (suc i, r', omega arith, g, e)
]

among_first_from :
    (k i : ℕ) (rs : List RegionPing) (region : String) {r : RegionPing}
    → i < k
    → get_elem? rs i ≡ some r
    → r.region ≡ region
    → among_first k rs region ≡ true
unfolding among_first
among_first_from zero i rs region b g e = absurd (omega arith)
among_first_from (suc k) i [] region b g e = absurd (cc)
among_first_from (suc k) zero (r' ∷ rs) region b g e =
    let same : r'.region ≡ region = ap (λ (p : RegionPing). p.region) (some_eq g) ∙ e in
    rw ((string_eq.beq_iff r'.region region).1 same)
among_first_from (suc k) (suc i) (r' ∷ rs) region b g e =
    ground (arith, among_first_from k i rs region (omega arith) g e)

open_regions_le :
    (created widen now i : ℕ)
    → 0 < widen
    → created ≤ now
    → (i < open_regions created widen now) ↔ (created + i * widen ≤ now)
unfolding open_regions
open_regions_le created widen now i w c =
    let both = le-div_iff_mul-le {k = widen} {x = i} {y = now - created} w in
    let open_now : leb created now ≡ true = le→leb created now c in
    rw open_now (
      λ h. let m : i * widen ≤ now - created = both.0 (omega arith) in omega arith,
      λ h. let m : i ≤ (now - created) / widen = both.1 (omega arith) in omega arith,
    )

-- A ticket is eligible in a region exactly when the region stands at an index i of its list, the
-- lowest round-trip time first, and the ticket has waited for i widening periods.
pub eligible_for_lem :
    (t : Qt) (region : String) (widen now : ℕ)
    → 0 < widen
    → t.created ≤ now
    → (eligible_for t region widen now ≡ true) ↔ (
        (i : ℕ) × (r : RegionPing) × (get_elem? t.regions i ≡ some r)
        × (r.region ≡ region)
        × (t.created + i * widen ≤ now))
unfolding eligible_for
eligible_for_lem t region widen now w c = (
  λ h.
      let (i, r, b, g, e) = among_first_to (open_regions t.created widen now) t.regions region h in
      (i, r, g, e, (open_regions_le t.created widen now i w c).0 b),
  λ f.
      among_first_from (open_regions t.created widen now) f.0 t.regions region
        ((open_regions_le t.created widen now f.0 w c).1 f.4) f.2 f.3,
)
