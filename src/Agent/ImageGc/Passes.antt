-- ===== src/Agent/ImageGc/Passes.antt =====
-- What one pass deletes.
use birdman.Base.{
  All, Bool, Bool-cases, List, String, [], arith, contains, false, get_elem?, inl, inr, keep_if,
  ltb, nat_eq, not, refl, some, some_eq, string_eq, subst, suc, sym, true, ℕ, ◌+◌, ◌||◌, ◌∙◌, ◌∷◌,
  ◌≡◌,
}
use birdman.Matchmaker.Groups.{insert_sorted, sort_slice}
use birdman.Agent.ImageGc.{
  Disk, Image, Runtime, Touched, above_watermark, candidates, delete_loop, protected_refs, run_once,
}

module _ {ℓ κ} {A : Type ℓ} (less : A → A → Bool) (P : A → Type κ) where
  All-insert_sorted : (a : A) (xs : List A) → P a → All P xs → All P (insert_sorted less a xs)
  unfolding insert_sorted
  All-insert_sorted a [] p h = (p, tt)
  All-insert_sorted a (x ∷ xs) p h = elim (Bool-cases (less x a)) [
    | inl e ↦ rw e (h.0, All-insert_sorted a xs p h.1)
    | inr e ↦ rw e (p, h)
  ]

  All-sort_slice : (xs : List A) → All P xs → All P (sort_slice less xs)
  unfolding sort_slice
  All-sort_slice [] h = tt
  All-sort_slice (x ∷ xs) h = All-insert_sorted x (sort_slice less xs) h.0 (All-sort_slice xs h.1)

-- A listed image of that name that no container uses and nobody touched of late.
abbrev pub IsRemovable : List Image → List String → Touched → String → Type 0
IsRemovable images used touched name =
    ((i : ℕ) × (img : Image) × (get_elem? images i ≡ some img) × (img.name ≡ name))
    × (contains name used ≡ false)
    × (contains name (protected_refs touched) ≡ false)

candidates-IsRemovable :
    (images : List Image) (used protected : List String)
    → All
        (λ img.
          ((i : ℕ) × (x : Image) × (get_elem? images i ≡ some x) × (x.name ≡ img.name))
          × (contains img.name used ≡ false)
          × (contains img.name protected ≡ false))
        (candidates used protected images)
unfolding candidates
candidates-IsRemovable images used protected = go images (λ i x e. (i, x, e, refl))
  where
    go :
        (left : List Image)
        → ((i : ℕ) (x : Image)
            → get_elem? left i ≡ some x
            → (j : ℕ) × (y : Image) × (get_elem? images j ≡ some y) × (y.name ≡ x.name))
        → All
            (λ img.
              ((i : ℕ) × (x : Image) × (get_elem? images i ≡ some x) × (x.name ≡ img.name))
              × (contains img.name used ≡ false)
              × (contains img.name protected ≡ false))
            (keep_if (λ img. not (contains img.name used || contains img.name protected)) left)
    go [] f = tt
    go (img ∷ left) f =
        let rest = go left (λ i x e. f (suc i) x e) in
        elim (Bool-cases (contains img.name used || contains img.name protected)) [
          | inl kept ↦ rw kept rest
          | inr free ↦ rw free ((f 0 img refl, ground (arith, free), ground (arith, free)), rest)
        ]

delete_loop-All :
    (P : String → Type 0) (d : Disk) (delete_image : String → Bool) (k : ℕ) (images : List Image)
    → All (λ img. P img.name) images
    → All P (delete_loop d delete_image k images)
unfolding delete_loop
delete_loop-All P d delete_image k [] h = tt
delete_loop-All P d delete_image k (img ∷ more) h = elim (Bool-cases (above_watermark d k)) [
  | inr low ↦ rw (low, delete_loop) tt
  | inl high ↦
      let rest = delete_loop-All P d delete_image (k + 1) more h.1 in
      elim (Bool-cases (delete_image img.name)) [
        | inl done ↦ rw (high, done, delete_loop) (h.0, rest)
        | inr failed ↦ rw (high, failed, delete_loop) rest
      ]
]

-- Whatever the disk reports and whatever deletions fail: a pass deletes only images that the runtime
-- listed, that no container uses and that are not among the refs touched of late.
pub run_once-IsRemovable :
    (d : Disk) (rt : Runtime) (touched : Touched) (images : List Image) (used deleted : List String)
    → rt.images ≡ some images
    → rt.used_image_refs ≡ some used
    → run_once d rt touched ≡ some deleted
    → All (IsRemovable images used touched) deleted
unfolding run_once
run_once-IsRemovable d rt touched images used deleted hi hu h =
    elim (Bool-cases (above_watermark d 0)) [
      | inr low ↦
          let e : [] ≡ deleted = some_eq (sym (idle low) ∙ h) in
          subst (All (IsRemovable images used touched)) e tt
      | inl high ↦ subst (All (IsRemovable images used touched)) (some_eq (sym (pass high) ∙ h)) (
          delete_loop-All (IsRemovable images used touched) d rt.delete_image 1 _ (
            All-sort_slice (λ a b. ltb a.updated_at b.updated_at)
              (λ (img : Image). IsRemovable images used touched img.name)
              (candidates used (protected_refs touched) images)
              (candidates-IsRemovable images used (protected_refs touched))))
    ]
  where
    idle : above_watermark d 0 ≡ false → run_once d rt touched ≡ some []
    idle low = rw (low, run_once) refl

    pass :
        above_watermark d 0 ≡ true
        → run_once d rt touched
          ≡ some (
              delete_loop d rt.delete_image 1 (
                sort_slice
                  (λ a b. ltb a.updated_at b.updated_at)
                  (candidates used (protected_refs touched) images)))
    pass high = rw (high, hi, hu, run_once) refl
