-- ===== src/Matchmaker/Queue/Index.antt =====
-- The index of players: what `release_keys` leaves of it.
use birdman.Base.{
  Bool, Bool-cases, List, Option, String, [], ap, arith, beq_refl, contains, delete, false,
  if◌then◌else◌, inl, inr, insert, lookup, lookup-delete, lookup-insert, nat_eq, none, refl, some,
  some_eq, string_eq, subst, sym, true, true_ne_false, ◌&&◌, ◌||◌, ◌∙◌, ◌∷◌, ◌≡◌, ◌⊎◌,
}
use birdman.Matchmaker.Queue.{points_to, release_keys}

pub lookup-insert_self :
    {V : Type 0} (k : String) (v : V) (m : List (String × V)) → lookup k (insert k v m) ≡ some v
lookup-insert_self k v m = ground (arith, lookup-insert k k v m, beq_refl k)

pub lookup-insert_other :
    {V : Type 0} (k j : String) (v : V) (m : List (String × V))
    → string_eq.beq k j ≡ false
    → lookup j (insert k v m) ≡ lookup j m
lookup-insert_other k j v m h = ground (arith, lookup-insert k j v m, h)

release_one :
    (id k j : String) (m : List (String × String))
    → lookup j (if points_to id (lookup k m) then delete k m else m)
      ≡ (if string_eq.beq k j && points_to id (lookup j m) then none else lookup j m)
release_one id k j m = elim (Bool-cases (string_eq.beq k j)) [
  | inr other ↦ elim (Bool-cases (points_to id (lookup k m))) [
    | inl e ↦ rw e (ground (arith, lookup-delete k j m, other))
    | inr e ↦ rw e (ground (arith, other))
  ]
  | inl same ↦
      let at : lookup k m ≡ lookup j m = ap (λ i. lookup i m) ((string_eq.beq_iff k j).0 same) in
      elim (Bool-cases (points_to id (lookup k m))) [
        | inl e ↦
            let e' : points_to id (lookup j m) ≡ true = ap (points_to id) (sym at) ∙ e in
            rw e (ground (arith, lookup-delete k j m, same, e'))
        | inr e ↦
            let e' : points_to id (lookup j m) ≡ false = ap (points_to id) (sym at) ∙ e in
            rw e (ground (arith, e'))
      ]
]

both :
    (id : String) (b c : Bool) (o : Option String)
    → (let o' = if b && points_to id o then none else o in
        if c && points_to id o' then none else o')
      ≡ (if (b || c) && points_to id o then none else o)
both id true c none = ground arith
both id false c none = ground arith
both id b c (some x) = ground arith

lookup-release_keys :
    (id j : String) (ks : List String) (m : List (String × String))
    → lookup j (release_keys id ks m)
      ≡ (if contains j ks && points_to id (lookup j m) then none else lookup j m)
unfolding release_keys
lookup-release_keys id j [] m = refl
lookup-release_keys id j (k ∷ ks) m =
    let m' = if points_to id (lookup k m) then delete k m else m in
    lookup-release_keys id j ks m'
    ∙ ap (λ o. if contains j ks && points_to id o then none else o) (release_one id k j m)
    ∙ both id (string_eq.beq k j) (contains j ks) (lookup j m)

pub release_keys-kept :
    (id j x : String) (ks : List String) (m : List (String × String))
    → string_eq.beq x id ≡ false
    → lookup j m ≡ some x
    → lookup j (release_keys id ks m) ≡ some x
release_keys-kept id j x ks m ne h =
    lookup-release_keys id j ks m
    ∙ ap (λ o. if contains j ks && points_to id o then none else o) h
    ∙ ground (arith, ne)

kept_or :
    (id x : String) (c : Bool) (o : Option String)
    → (if c && points_to id o then none else o) ≡ some x
    → (o ≡ some x) × ((c ≡ false) ⊎ (string_eq.beq x id ≡ false))
kept_or id x c none h = absurd (ground (arith, h))
kept_or id x false (some y) h = (h, inl refl)
kept_or id x true (some y) h = elim (Bool-cases (string_eq.beq y id)) [
  | inl e ↦ absurd (ground (arith, e, h))
  | inr ne ↦
      let e : some y ≡ some x = ground (arith, ne, h) in
      (e, inr (subst (λ z. string_eq.beq z id ≡ false) (some_eq e) ne))
]

-- `release_keys` makes no entry, and leaves none of the ticket under these keys.
pub release_keys-some :
    (id j x : String) (ks : List String) (m : List (String × String))
    → lookup j (release_keys id ks m) ≡ some x
    → (lookup j m ≡ some x) × ((contains j ks ≡ false) ⊎ (string_eq.beq x id ≡ false))
release_keys-some id j x ks m h =
    kept_or id x (contains j ks) (lookup j m) (sym (lookup-release_keys id j ks m) ∙ h)

pub beq_swap : (a b : String) → string_eq.beq a b ≡ false → string_eq.beq b a ≡ false
beq_swap a b h = elim (Bool-cases (string_eq.beq b a)) [
  | inr e ↦ e
  | inl e ↦ absurd (true_ne_false ((string_eq.beq_iff a b).1 (sym ((string_eq.beq_iff b a).0 e))) h)
]

pub insert_at :
    {V : Type 0} (k j : String) (x y : V) (m : List (String × V))
    → k ≡ j
    → lookup j (insert k x m) ≡ some y
    → x ≡ y
insert_at k j x y m same e =
    some_eq (sym (lookup-insert_self k x m) ∙ ap (λ z. lookup z (insert k x m)) same ∙ e)
