-- ===== src/Base/Maps.antt =====
-- Predicates on the values of a dictionary.
use Prim.Native.Nat.{ℕ, ◌+◌, ◌≤◌}
use mathlib.Core.Path.{◌≡◌, refl, subst}
use mathlib.Core.Logic.{inl, inr}
use mathlib.Core.List.{List, [], ◌∷◌}
use mathlib.Core.Option.{none, some}
use mathlib.Core.Bool.{Bool, false}
use native.Mathlib.Omega.{arith}
use birdman.Base.Tests.{Bool-cases, some_eq}
use birdman.Base.Lists.{All, keep_if}
use birdman.Base.Keys.{Eq, insert, lookup}

abbrev pub AllValues {ℓ κ μ} : {K : Type ℓ} {V : Type κ} → (V → Type μ) → List (K × V) → Type μ
AllValues P [] = Unit
AllValues P ((k, v) ∷ m) = P v × AllValues P m

pub AllValues-keep_if {ℓ κ μ} :
    {K : Type ℓ} {V : Type κ} (P : V → Type μ) (p : K × V → Bool) (m : List (K × V))
    → AllValues P m
    → AllValues P (keep_if p m)
AllValues-keep_if P p [] h = h
AllValues-keep_if P p ((k, v) ∷ m) h = elim (Bool-cases (p (k, v))) [
  | inl kept ↦ rw kept (h.0, AllValues-keep_if P p m h.1)
  | inr gone ↦ rw gone (AllValues-keep_if P p m h.1)
]

module _ {ℓ κ μ} {K : Type ℓ} {V : Type κ} ⦃e : Eq K⦄ (P : V → Type μ) where
  pub AllValues-lookup :
      (k : K) {v : V} (m : List (K × V)) → AllValues P m → lookup k m ≡ some v → P v
  AllValues-lookup k [] h found = absurd (cc)
  AllValues-lookup k {v} ((j, w) ∷ m) h found = elim (Bool-cases (e.beq j k)) [
    | inl same ↦ subst P (some_eq (rw same at found)) h.0
    | inr other ↦ AllValues-lookup k {v = v} m h.1 (rw other at found)
  ]

  pub AllValues-insert :
      (k : K) (v : V) (m : List (K × V)) → AllValues P m → P v → AllValues P (insert k v m)
  AllValues-insert k v [] h new = (new, tt)
  AllValues-insert k v ((j, w) ∷ m) h new = elim (Bool-cases (e.beq j k)) [
    | inl same ↦ rw same (new, h.1)
    | inr other ↦ rw other (h.0, AllValues-insert k v m h.1 new)
  ]

-- A sum over the values.
module _ {ℓ κ} {K : Type ℓ} {V : Type κ} (w : V → ℕ) where
  abbrev pub total : List (K × V) → ℕ
  total [] = 0
  total ((k, v) ∷ m) = w v + total m

  pub total-keep_if :
      (p : K × V → Bool) (m : List (K × V))
      → All (λ (e : K × V). p e ≡ false → w e.1 ≡ 0) m
      → total (keep_if p m) ≡ total m
  total-keep_if p [] h = refl
  total-keep_if p ((k, v) ∷ m) h = elim (Bool-cases (p (k, v))) [
    | inl kept ↦ rw kept (omega (arith, total-keep_if p m h.1))
    | inr gone ↦ rw gone (omega (arith, total-keep_if p m h.1, h.0 gone))
  ]

module _ {ℓ κ} {K : Type ℓ} {V : Type κ} ⦃e : Eq K⦄ (w : V → ℕ) where
  pub total-insert_known :
      (k : K) (v v' : V) (m : List (K × V))
      → lookup k m ≡ some v
      → total w (insert k v' m) + w v ≡ total w m + w v'
  total-insert_known k v v' [] h = absurd (cc)
  total-insert_known k v v' ((j, u) ∷ m) h = elim (Bool-cases (e.beq j k)) [
    | inl same ↦ let eq : u ≡ v = some_eq (rw same at h) in rw same (rw eq (omega arith))
    | inr other ↦ rw other (omega (arith, total-insert_known k v v' m (rw other at h)))
  ]

  pub total-insert_new :
      (k : K) (v : V) (m : List (K × V))
      → lookup k m ≡ none
      → total w (insert k v m) ≡ total w m + w v
  total-insert_new k v [] h = omega arith
  total-insert_new k v ((j, u) ∷ m) h = elim (Bool-cases (e.beq j k)) [
    | inl same ↦ absurd (let e = rw same at h in cc)
    | inr other ↦ rw other (omega (arith, total-insert_new k v m (rw other at h)))
  ]

  pub le-total : (k : K) (v : V) (m : List (K × V)) → lookup k m ≡ some v → w v ≤ total w m
  le-total k v [] h = absurd (cc)
  le-total k v ((j, u) ∷ m) h = elim (Bool-cases (e.beq j k)) [
    | inl same ↦ let eq : u ≡ v = some_eq (rw same at h) in rw eq (omega arith)
    | inr other ↦ omega (arith, le-total k v m (rw other at h))
  ]
