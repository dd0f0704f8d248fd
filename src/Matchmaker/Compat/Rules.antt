-- ===== src/Matchmaker/Compat/Rules.antt =====
-- Compatibility against a rule that does not go through the indices of overrides.
use mathlib.Core.Path.{ap₂}
use birdman.Base.{
  Bool, Bool-cases, Option, Option-cases, Text, [], ap, arith, get_elem?, inl, inr, refl, some,
  some_eq, subst, suc, sym, true, ℕ, ◌&&◌, ◌+◌, ◌||◌, ◌↔◌, ◌∷◌, ◌≡◌, ◌⊎◌,
}
use birdman.Matchmaker.Compat.{
  Compat, CompiledOverride, Semver, any_b, client_overrides, compatible, compatible_versions,
  matches, overrides_from, parse_semver, servers_at, servers_of,
}

-- The rule without the detour through indices: some override of the table names the client and
-- lists the server.
abbrev pub allowed_by : Compat → Semver → Semver → Bool
allowed_by c cv sv = any_b (λ o. matches o.client cv && any_b (λ p. matches p sv) o.servers) c

abbrev lists : Semver → Compat → ℕ → Bool
lists sv c i = any_b (λ p. matches p sv) (servers_at c i)

-- The indices that `clientOverrides` collects from `n` on lead back to the rows of `os`.
any-overrides_from :
    (c os : Compat) (n : ℕ) (cv sv : Semver)
    → ((i : ℕ) → get_elem? c (n + i) ≡ get_elem? os i)
    → any_b (lists sv c) (overrides_from n os cv) ≡ allowed_by os cv sv
unfolding overrides_from
any-overrides_from c [] n cv sv h = refl
any-overrides_from c (o ∷ os) n cv sv h =
    let here : get_elem? c n ≡ some o =
      subst (λ k. get_elem? c k ≡ some o) (let e : n + 0 ≡ n = omega arith in e) (h 0) in
    let rest = any-overrides_from c os (n + 1) cv sv (λ i.
      subst (λ k. get_elem? c k ≡ get_elem? os i) (let e : n + suc i ≡ n + 1 + i = omega arith in e)
        (h (suc i))) in
    let row : lists sv c n ≡ any_b (λ p. matches p sv) o.servers =
      ap (λ (r : Option CompiledOverride). any_b (λ p. matches p sv) (servers_of r)) here in
    elim (Bool-cases (matches o.client cv)) [
      | inl hit ↦ rw hit (ap₂ ◌||◌ row rest)
      | inr miss ↦ rw miss rest
    ]

abbrev Fits : Compat → Semver → Semver → Type 0
Fits c cv sv = ((cv.major ≡ sv.major) × (cv.minor ≡ sv.minor)) ⊎ (allowed_by c cv sv ≡ true)

compatible_versions_iff :
    (c : Compat) (cv sv : Semver)
    → (compatible_versions c cv sv ≡ true)
      ↔ (((cv.major ≡ sv.major) × (cv.minor ≡ sv.minor)) ⊎ (allowed_by c cv sv ≡ true))
unfolding compatible_versions client_overrides
compatible_versions_iff c cv sv =
    let rows =
      any-overrides_from c c 0 cv sv
        (λ i. ap (get_elem? c) (let e : 0 + i ≡ i = omega arith in e)) in
    rw rows ground arith

-- A client may play on a server exactly when both versions parse, and either MAJOR and MINOR are
-- equal or some override matches the client and lists a pattern that matches the server; with no
-- override that is the default rule.
pub compatible_lem :
    (c : Compat) (v w : Text)
    → (compatible c v w ≡ true) ↔ (
        (cv sv : Semver) × (parse_semver v ≡ some cv)
        × (parse_semver w ≡ some sv)
        × (((cv.major ≡ sv.major) × (cv.minor ≡ sv.minor)) ⊎ (allowed_by c cv sv ≡ true)))
unfolding compatible
compatible_lem c v w = elim (Option-cases (parse_semver v)) [
  | inl e ↦ rw (e, compatible) (λ h. absurd (cc), λ k. absurd (cc (e, k.2)))
  | inr (cv, e) ↦ elim (Option-cases (parse_semver w)) [
    | inl f ↦ rw (e, f, compatible) (λ h. absurd (cc), λ k. absurd (cc (f, k.3)))
    | inr (sv, f) ↦
        rw (e, f, compatible)
          (
            λ h. (cv, sv, refl, refl, (compatible_versions_iff c cv sv).0 h),
            λ k. (compatible_versions_iff c cv sv).1 (
                subst (λ x. Fits c x sv) (sym (some_eq k.2))
                  (subst (λ y. Fits c k.0 y) (sym (some_eq k.3)) k.4)),
          )
  ]
]
