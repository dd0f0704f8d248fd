-- ===== src/Agent/Link/CmdCache/Window.antt =====
-- How long the cache remembers an id.
use native.Mathlib.Decide.{dec_lt, ℕ_discrete}
use native.Mathlib.Nat.{mod-eq_of_lt, mod-lt, mod_self}
use mathlib.Core.Bool.{false≢true}
use birdman.Base.{
  Bool-cases, List, String, [], ap, arith, beq_refl, contains, contains-erase_all, false, get_elem?,
  get_elem?-set_ne, get_elem?-set_self, get_or, get_or-get_elem?, inl, inr, length,
  length-replicate, length-set, nat_eq, replicate, set, some, some_eq, string_eq, subst, suc, sym,
  true, true_ne_false, zero, ℕ, ◌%◌, ◌+◌, ◌<◌, ◌∙◌, ◌∷◌, ◌≡◌, ◌≢◌, ◌≤◌, ◌⊎◌,
}
use birdman.Agent.Link.CmdCache.{CmdCache, add, add_all, new_cmd_cache}

-- The cache holds `id` in the slot `i` and nowhere else; `left` slots are written before that one.
record Holds (c : CmdCache) (id : String) (i left : ℕ) : Type 0 where
  known : contains id c.set ≡ true
  slot : get_elem? c.ring i ≡ some id
  only : (j : ℕ) → get_elem? c.ring j ≡ some id → j ≡ i
  inside : (i < length c.ring) × (c.next < length c.ring) × (left < length c.ring)
  ahead : (c.next + left ≡ i) ⊎ (c.next + left ≡ i + length c.ring)

step_forward :
    (n next : ℕ) → next < n → ((next + 1) % n ≡ next + 1) ⊎ ((next + 1 ≡ n) × ((next + 1) % n ≡ 0))
step_forward n next h = elim (dec_lt (next + 1) n) [
  | yes p ↦ inl (mod-eq_of_lt p)
  | no p ↦ let e : next + 1 ≡ n = omega arith in inr (e, rw e (mod_self n))
]

module _ (c : CmdCache) (id new : String) (i left : ℕ) (h : Holds c id i (suc left))
    (fresh : contains new c.set ≡ false) where
  elsewhere : c.next ≢ i
  elsewhere e = elim h.ahead [ inl p ↦ omega arith | inr p ↦ omega (arith, h.inside) ]

  new_ne : new ≢ id
  new_ne e = absurd (false≢true (sym (subst (λ z. contains z c.set ≡ false) e fresh) ∙ h.known))

  old_ne : string_eq.beq (get_or c.ring c.next "") id ≡ false
  old_ne = elim (Bool-cases (string_eq.beq (get_or c.ring c.next "") id)) [
    | inr miss ↦ miss
    | inl hit ↦ absurd (
        elsewhere (
          h.only c.next (
            get_or-get_elem? c.ring c.next "" h.inside.1
            ∙ ap some ((string_eq.beq_iff _ _).0 hit))))
  ]

  write-Holds : Holds (add c new).0 id i left
  unfolding add
  write-Holds =
      rw (fresh, add)
        (record {
          known =
              ground
                (arith, contains-erase_all id (get_or c.ring c.next "") c.set, old_ne, h.known);
          slot = get_elem?-set_ne c.ring new elsewhere ∙ h.slot;
          only = λ j e. elim (ℕ_discrete c.next j) [
            | yes p ↦ absurd (
                new_ne (
                  some_eq (
                    sym (get_elem?-set_self c.ring c.next new h.inside.1)
                    ∙ subst (λ k. get_elem? (set c.ring c.next new) k ≡ some id) (sym p) e)))
            | no p ↦ h.only j (sym (get_elem?-set_ne c.ring new p) ∙ e)
          ];
          inside = rw (length-set c.ring c.next new) (
            h.inside.0,
            mod-lt (c.next + 1) (omega (arith, h.inside.0)),
            omega (arith, h.inside.2),
          );
          ahead =
              rw (length-set c.ring c.next new)
                (elim (step_forward (length c.ring) c.next h.inside.1) [
                  | inl p ↦ ground (arith, p, h.ahead, h.inside)
                  | inr p ↦ ground (arith, p, h.ahead, h.inside)
                ]);
        })

add-Holds :
    (c : CmdCache) (id new : String) (i left : ℕ)
    → Holds c id i (suc left)
    → Holds (add c new).0 id i left ⊎ Holds (add c new).0 id i (suc left)
unfolding add
add-Holds c id new i left h = elim (Bool-cases (contains new c.set)) [
  | inl old ↦ inr (rw (old, add) h)
  | inr fresh ↦ inl (write-Holds c id new i left h fresh)
]

add_all-Holds :
    (c : CmdCache) (id : String) (i left : ℕ) (ids : List String)
    → Holds c id i left
    → length ids ≤ left
    → contains id (add_all c ids).set ≡ true
unfolding add_all
add_all-Holds c id i left [] h b = h.known
add_all-Holds c id i zero (new ∷ ids) h b = absurd (omega arith)
add_all-Holds c id i (suc left) (new ∷ ids) h b = elim (add-Holds c id new i left h) [
  | inl g ↦ add_all-Holds (add c new).0 id i left ids g (omega arith)
  | inr g ↦ add_all-Holds (add c new).0 id i (suc left) ids g (omega arith)
]

-- The ids in the slots are known, and none stands in two slots.
record Inv (n : ℕ) (c : CmdCache) : Type 0 where
  size : (length c.ring ≡ suc n) × (c.next < suc n)
  known : (j : ℕ) (id : String) → id ≢ "" → get_elem? c.ring j ≡ some id → contains id c.set ≡ true
  unique :
      (j k : ℕ) (id : String)
      → id ≢ ""
      → get_elem? c.ring j ≡ some id
      → get_elem? c.ring k ≡ some id
      → j ≡ k

get_elem?-replicate : (n j : ℕ) (a b : String) → get_elem? (replicate n a) j ≡ some b → a ≡ b
get_elem?-replicate zero j a b h = absurd (cc)
get_elem?-replicate (suc n) zero a b h = some_eq h
get_elem?-replicate (suc n) (suc j) a b h = get_elem?-replicate n j a b h

new_cmd_cache-Inv : (n : ℕ) → Inv n (new_cmd_cache (suc n))
unfolding new_cmd_cache
new_cmd_cache-Inv n = record {
  size = (length-replicate (suc n) "", omega arith);
  known = λ j id ne e. absurd (ne (sym (get_elem?-replicate (suc n) j "" id e)));
  unique = λ j k id ne e f. absurd (ne (sym (get_elem?-replicate (suc n) j "" id e)));
}

-- What a slot holds after a write.
slot_cases :
    (c : CmdCache) (new : String) (j : ℕ) (id : String)
    → c.next < length c.ring
    → get_elem? (set c.ring c.next new) j ≡ some id
    → ((j ≡ c.next) × (new ≡ id)) ⊎ ((c.next ≢ j) × (get_elem? c.ring j ≡ some id))
slot_cases c new j id h e = elim (ℕ_discrete c.next j) [
  | yes p ↦ inl (
    sym p,
    some_eq (
        sym (get_elem?-set_self c.ring c.next new h)
        ∙ subst (λ k. get_elem? (set c.ring c.next new) k ≡ some id) (sym p) e),
  )
  | no p ↦ inr (p, sym (get_elem?-set_ne c.ring new p) ∙ e)
]

module _ (n : ℕ) (c : CmdCache) (new : String) (v : Inv n c)
    (fresh : contains new c.set ≡ false) where
  evicted : String
  evicted = get_or c.ring c.next ""

  old_slot : get_elem? c.ring c.next ≡ some evicted
  unfolding evicted
  old_slot = get_or-get_elem? c.ring c.next "" (omega (arith, v.size))

  still_known :
      (j : ℕ) (id : String)
      → id ≢ ""
      → get_elem? (set c.ring c.next new) j ≡ some id
      → contains id (add c new).0.set ≡ true
  unfolding add evicted
  still_known j id ne e = elim (slot_cases c new j id (omega (arith, v.size)) e) [
    | inl (at, p) ↦ rw (fresh, add) (ground (arith, (string_eq.beq_iff new id).1 p))
    | inr (off, f) ↦
        let other : string_eq.beq evicted id ≡ false =
          elim (Bool-cases (string_eq.beq evicted id)) [
            | inr miss ↦ miss
            | inl hit ↦ absurd (
                off (
                  v.unique c.next j id ne
                    (old_slot ∙ ap some ((string_eq.beq_iff evicted id).0 hit)) f))
          ] in
        let was = v.known j id ne f in
        rw (fresh, add)
          (ground (arith, contains-erase_all id (get_or c.ring c.next "") c.set, other, was))
  ]

  still_unique :
      (j k : ℕ) (id : String)
      → id ≢ ""
      → get_elem? (set c.ring c.next new) j ≡ some id
      → get_elem? (set c.ring c.next new) k ≡ some id
      → j ≡ k
  still_unique j k id ne e f =
      pair (slot_cases c new j id (omega (arith, v.size)) e)
        (slot_cases c new k id (omega (arith, v.size)) f)
    where
      taken : (m : ℕ) → new ≡ id → get_elem? c.ring m ≡ some id → ⊥
      taken m p g =
          true_ne_false (v.known m id ne g) (subst (λ z. contains z c.set ≡ false) p fresh)

      pair :
          ((j ≡ c.next) × (new ≡ id)) ⊎ ((c.next ≢ j) × (get_elem? c.ring j ≡ some id))
          → ((k ≡ c.next) × (new ≡ id)) ⊎ ((c.next ≢ k) × (get_elem? c.ring k ≡ some id))
          → j ≡ k
      pair (inl (a, p)) (inl (b, q)) = a ∙ sym b
      pair (inl (a, p)) (inr (b, g)) = absurd (taken k p g)
      pair (inr (a, g)) (inl (b, q)) = absurd (taken j q g)
      pair (inr (a, g)) (inr (b, g')) = v.unique j k id ne g g'

  add_fresh-Inv : Inv n (add c new).0
  unfolding add
  add_fresh-Inv =
      rw (fresh, add)
        (record {
          size = (
            length-set c.ring c.next new ∙ v.size.0,
            rw v.size.0 (mod-lt (c.next + 1) (omega arith)),
          );
          known = unfold add in rw (fresh, add) at still_known;
          unique = still_unique;
        })

add_all-Inv : (n : ℕ) (c : CmdCache) (ids : List String) → Inv n c → Inv n (add_all c ids)
unfolding add_all
add_all-Inv n c [] v = v
add_all-Inv n c (id ∷ ids) v =
    add_all-Inv n (add c id).0 ids (after (Bool-cases (contains id c.set)))
  where
    after : (contains id c.set ≡ true) ⊎ (contains id c.set ≡ false) → Inv n (add c id).0
    after (inl old) = unfold add in rw (old, add) v
    after (inr fresh) = add_fresh-Inv n c id v fresh

add_fresh-Holds :
    (n : ℕ) (c : CmdCache) (id : String)
    → Inv n c
    → id ≢ ""
    → contains id c.set ≡ false
    → Holds (add c id).0 id c.next n
unfolding add
add_fresh-Holds n c id v ne fresh =
    rw (fresh, add)
      (record {
        known = ground (arith, beq_refl id);
        slot = get_elem?-set_self c.ring c.next id (omega (arith, v.size));
        only = λ j e. elim (slot_cases c id j id (omega (arith, v.size)) e) [
          | inl (at, p) ↦ at
          | inr (off, f) ↦ absurd (true_ne_false (v.known j id ne f) fresh)
        ];
        inside = rw (length-set c.ring c.next id) (
          omega (arith, v.size),
          mod-lt (c.next + 1) (omega (arith, v.size)),
          omega (arith, v.size),
        );
        ahead =
            rw (length-set c.ring c.next id)
              (elim (step_forward (length c.ring) c.next (omega (arith, v.size))) [
                | inl p ↦ ground (arith, p, v.size)
                | inr p ↦ ground (arith, p, v.size)
              ]);
      })

-- A command id that the cache of n + 1 slots took as new is known again after any n further
-- commands: its replay is not executed, whatever ids came before and between.
pub add-remembers :
    (n : ℕ) (before later : List String) (id : String)
    → id ≢ ""
    → (add (add_all (new_cmd_cache (suc n)) before) id).1 ≡ true
    → length later ≤ n
    → (add (add_all (add (add_all (new_cmd_cache (suc n)) before) id).0 later) id).1 ≡ false
unfolding add
add-remembers n before later id ne taken short =
    let c = add_all (new_cmd_cache (suc n)) before in
    let v = add_all-Inv n (new_cmd_cache (suc n)) before (new_cmd_cache-Inv n) in
    let fresh : contains id c.set ≡ false = ground (arith, taken) in
    let h = add_fresh-Holds n c id v ne fresh in
    rw (add_all-Holds (add c id).0 id c.next n later h short)
