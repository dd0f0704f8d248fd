-- ===== src/Matchmaker/Compat/Buckets.antt =====
-- Queue buckets: a bucket name determines what its clients may play on.
use mathlib.Core.Path.{ap₂}
use birdman.Base.{
  IsBreak, List, Option-cases, Text, [], ap, arith, inl, inr, itoa, itoa-append_injective, refl,
  some, some_eq, sym, ℕ, ◌++◌, ◌∙◌, ◌∷◌, ◌≡◌,
}
use birdman.Matchmaker.Compat.{
  Compat, Semver, bucket_of, client_overrides, compatible, compatible_versions, parse_semver,
  suffix, ◌>>=◌,
}

suffix-IsBreak : (is : List ℕ) → IsBreak (suffix is)
unfolding suffix
suffix-IsBreak [] = tt
suffix-IsBreak (i ∷ is) = refl

suffix-injective : (is js : List ℕ) → suffix is ≡ suffix js → is ≡ js
unfolding suffix
suffix-injective [] [] e = refl
suffix-injective [] (j ∷ js) e = absurd (cc)
suffix-injective (i ∷ is) [] e = absurd (cc)
suffix-injective (i ∷ is) (j ∷ js) e =
    let tails : itoa i ++ suffix is ≡ itoa j ++ suffix js = cc in
    let (p, q) =
      itoa-append_injective i j (suffix is) (suffix js) (suffix-IsBreak is) (suffix-IsBreak js)
        tails in
    ap₂ ◌∷◌ p (suffix-injective is js q)

-- The text of a bucket determines the two numbers and the overrides that it was made of.
bucket-injective :
    (a b c d : ℕ) (is js : List ℕ)
    → itoa a ++ (b'.' ∷ itoa b ++ suffix is) ≡ itoa c ++ (b'.' ∷ itoa d ++ suffix js)
    → (a ≡ c) × (b ≡ d) × (is ≡ js)
bucket-injective a b c d is js e =
    let (p, q) = itoa-append_injective a c _ _ refl refl e in
    let tails : itoa b ++ suffix is ≡ itoa d ++ suffix js = cc in
    let (r, s) =
      itoa-append_injective b d (suffix is) (suffix js) (suffix-IsBreak is) (suffix-IsBreak js)
        tails in
    (p, r, suffix-injective is js s)

-- The bucket of a client, with the parsed version that it stands for.
bucket_of-some :
    (c : Compat) (v b : Text)
    → bucket_of c v ≡ some b
    → (cv : Semver) × (parse_semver v ≡ some cv)
      × (itoa cv.major ++ (b'.' ∷ itoa cv.minor ++ suffix (client_overrides c cv)) ≡ b)
unfolding bucket_of
bucket_of-some c v b h = elim (Option-cases (parse_semver v)) [
  | inl e ↦ absurd (ground (arith, e, h))
  | inr (cv, e) ↦ (
    cv,
    e,
    some_eq (
        sym (
          ap
            (λ o. o >>= λ sv.
              some (itoa sv.major ++ (b'.' ∷ itoa sv.minor ++ suffix (client_overrides c sv))))
            e)
        ∙ h),
  )
]

compatible_versions-same :
    (c : Compat) (cv cw sv : Semver)
    → cv.major ≡ cw.major
    → cv.minor ≡ cw.minor
    → client_overrides c cv ≡ client_overrides c cw
    → compatible_versions c cv sv ≡ compatible_versions c cw sv
unfolding compatible_versions
compatible_versions-same c cv cw sv ma mi ov = rw (ov, ma, mi)

-- Two clients in one queue bucket may play on exactly the same server versions, whatever overrides
-- the table has: a group formed inside a bucket always fits one server.
pub bucket_of-compatible :
    (c : Compat) (v w bucket : Text)
    → bucket_of c v ≡ some bucket
    → bucket_of c w ≡ some bucket
    → (server : Text) → compatible c v server ≡ compatible c w server
unfolding compatible
bucket_of-compatible c v w bucket hv hw server =
    let (cv, pv, bv) = bucket_of-some c v bucket hv in
    let (cw, pw, bw) = bucket_of-some c w bucket hw in
    let (ma, mi, ov) = bucket-injective _ _ _ _ _ _ (bv ∙ sym bw) in
    elim (Option-cases (parse_semver server)) [
      | inl e ↦ rw (pv, pw, e, compatible)
      | inr (sv, e) ↦ rw (pv, pw, e, compatible) (compatible_versions-same c cv cw sv ma mi ov)
    ]
