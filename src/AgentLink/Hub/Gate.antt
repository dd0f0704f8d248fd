-- ===== src/AgentLink/Hub/Gate.antt =====
-- The registries gate: a registry's credentials stay off an untrusted link.
use birdman.Base.{
  All, All-append, Bool-cases, List, Option, String, [], ap, arith, false, if◌then◌else◌, inl, inr,
  length, ltb, nat_eq, none, refl, some, some_eq, string_eq, subst, sym, ℕ, ◌++◌, ◌+◌, ◌∙◌, ◌∷◌,
  ◌≡◌, ◌≤◌,
}
use birdman.AgentLink.Hub.{
  Cmd, NodeQueue, Session, find_cmd, out_cap, push, push_all, remove_cmd, remove_set_registries,
  trusted_for_registries,
}

module _ {ℓ} {M : Type ℓ} where
  abbrev pub NoRegistries : List (Cmd M) → Type 0
  NoRegistries ms = All (λ m. m.registries ≡ false) ms

  -- Nothing that waits for an untrusted session, or went through it, is a SetRegistries.
  abbrev pub IsGated : List (Cmd M) → Option (Session M) → Type 0
  IsGated pending none = Unit
  IsGated pending (some s) =
      trusted_for_registries s ≡ false
      → NoRegistries pending × NoRegistries s.out × NoRegistries s.wire

  unfoldable pub registries_in : List (Cmd M) → ℕ
  registries_in [] = 0
  registries_in (m ∷ ms) = (if m.registries then 1 else 0) + registries_in ms

  pub remove-NoRegistries : (ms : List (Cmd M)) → NoRegistries (remove_set_registries ms)
  unfolding remove_set_registries
  remove-NoRegistries [] = tt
  remove-NoRegistries (m ∷ ms) = elim (Bool-cases m.registries) [
    | inl e ↦ rw e (remove-NoRegistries ms)
    | inr e ↦ rw e (refl, remove-NoRegistries ms)
  ]

  pub NoRegistries-count : (ms : List (Cmd M)) → NoRegistries ms → registries_in ms ≡ 0
  unfolding registries_in
  NoRegistries-count [] h = refl
  NoRegistries-count (m ∷ ms) h = ground (arith, h.0, NoRegistries-count ms h.1)

  pub push-IsGated :
      (pending : List (Cmd M)) (s : Session M) (m : Cmd M)
      → m.registries ≡ false
      → IsGated pending (some s)
      → IsGated pending (some (push s m))
  unfolding push
  push-IsGated pending s m r g = elim (Bool-cases (ltb (length s.out) out_cap)) [
    | inl room ↦
        rw (room, push)
          (λ u.
            let (a, b, c) = g u in
            (a, All-append (λ m. m.registries ≡ false) s.out (m ∷ []) b (r, tt), c))
    | inr full ↦ rw (full, push) g
  ]

  pub push-trusted :
      (s : Session M) (m : Cmd M) → trusted_for_registries (push s m) ≡ trusted_for_registries s
  unfolding push
  push-trusted s m = ground arith

  pub push_all-trusted :
      (s : Session M) (ms : List (Cmd M))
      → trusted_for_registries (push_all s ms) ≡ trusted_for_registries s
  unfolding push_all
  push_all-trusted s [] = refl
  push_all-trusted s (m ∷ ms) = push_all-trusted (push s m) ms ∙ push-trusted s m

  pub push_all-IsGated :
      (pending : List (Cmd M)) (s : Session M) (ms : List (Cmd M))
      → NoRegistries ms
      → IsGated pending (some s)
      → IsGated pending (some (push_all s ms))
  unfolding push_all
  push_all-IsGated pending s [] h g = g
  push_all-IsGated pending s (m ∷ ms) h g =
      push_all-IsGated pending (push s m) ms h.1 (push-IsGated pending s m h.0 g)

  pub find_cmd-NoRegistries :
      (id : String) (ms : List (Cmd M)) {m : Cmd M}
      → NoRegistries ms
      → find_cmd id ms ≡ some m
      → m.registries ≡ false
  find_cmd-NoRegistries id [] h e = absurd (cc)
  find_cmd-NoRegistries id (x ∷ xs) h e = elim (Bool-cases (string_eq.beq x.cmd_id id)) [
    | inl same ↦
        let k : some x ≡ some _ = sym (ap (λ b. if b then some x else find_cmd id xs) same) ∙ e in
        subst (λ (z : Cmd M). z.registries ≡ false) (some_eq k) h.0
    | inr other ↦
        find_cmd-NoRegistries id xs h.1
          (sym (ap (λ b. if b then some x else find_cmd id xs) other) ∙ e)
  ]

  pub remove_cmd-NoRegistries :
      (id : String) (ms : List (Cmd M)) → NoRegistries ms → NoRegistries (remove_cmd id ms)
  unfolding remove_cmd
  remove_cmd-NoRegistries id [] h = tt
  remove_cmd-NoRegistries id (m ∷ ms) h = elim (Bool-cases (string_eq.beq m.cmd_id id)) [
    | inl same ↦ rw same h.1
    | inr other ↦ rw other (h.0, remove_cmd-NoRegistries id ms h.1)
  ]

  pub registries_in-remove_cmd :
      (id : String) (ms : List (Cmd M)) → registries_in (remove_cmd id ms) ≤ registries_in ms
  unfolding registries_in remove_cmd
  registries_in-remove_cmd id [] = omega arith
  registries_in-remove_cmd id (m ∷ ms) = ground (arith, registries_in-remove_cmd id ms)

  pub registries_in-snoc :
      (ms : List (Cmd M)) (m : Cmd M)
      → registries_in (ms ++ m ∷ []) ≡ registries_in ms + (if m.registries then 1 else 0)
  unfolding registries_in
  registries_in-snoc [] m = omega arith
  registries_in-snoc (x ∷ xs) m = let e = registries_in-snoc xs m in omega arith

  abbrev pub Inv : NodeQueue M → Type 0
  Inv q = IsGated q.pending q.sess × (registries_in q.pending ≤ 1)
