-- ===== src/Reconcile/ImageCleanup/Hearing.antt =====
-- What one report changes in the nodes that are awaited.
use birdman.Base.{
  Bool, Bool-cases, List, Option-cases, String, [], ap, arith, contains, contains-erase_all, delete,
  erase_all, false, if◌then◌else◌, inl, inr, lookup, lookup-delete, lookup-insert, nat_eq, none,
  refl, some, some_eq, string_eq, subst, sym, true, true_ne_false, ◌∙◌, ◌∷◌, ◌≡◌, ◌⊎◌,
}
use birdman.Reconcile.ImageCleanup.{hear, hear_loop, settle}

erased :
    (n node : String) (nodes : List String)
    → contains n nodes ≡ true
    → (contains n (erase_all node nodes) ≡ true) ⊎ (n ≡ node)
erased n node nodes h = elim (Bool-cases (string_eq.beq node n)) [
  | inl e ↦ inr (sym ((string_eq.beq_iff node n).0 e))
  | inr ne ↦
      inl (contains-erase_all n node nodes ∙ ap (λ b. if b then false else contains n nodes) ne ∙ h)
]

-- The nodes left at `v` are those that were, but for `node` when a report without failure names v.
abbrev pub KeptFrom :
    Bool → String → Bool → List (String × List String) → String → List String → Type 0
KeptFrom failed node named m v left =
    (left0 : List String) × (lookup v m ≡ some left0)
    × ((n : String)
        → contains n left0 ≡ true
        → (contains n left ≡ true) ⊎ ((failed ≡ false) × (named ≡ true) × (n ≡ node)))

settle-kept :
    (node x v : String) (nodes left rest : List String) (m : List (String × List String))
    → lookup x m ≡ some nodes
    → erase_all node nodes ≡ rest
    → lookup v (settle x rest m).0 ≡ some left
    → KeptFrom false node (string_eq.beq x v) m v left
unfolding settle
settle-kept node x v nodes left [] m at e h = elim (Bool-cases (string_eq.beq x v)) [
  | inl same ↦ absurd (ground (arith, lookup-delete x v m, same))
  | inr other ↦ (left, ground (arith, lookup-delete x v m, other), λ n c. inl c)
]
settle-kept node x v nodes left (y ∷ ys) m at e h = elim (Bool-cases (string_eq.beq x v)) [
  | inr other ↦ (left, ground (arith, lookup-insert x v (y ∷ ys) m, other), λ n c. inl c)
  | inl same ↦
      let l : (y ∷ ys) ≡ left = some_eq (ground (arith, lookup-insert x v (y ∷ ys) m, same)) in
      (
        nodes,
        subst (λ z. lookup z m ≡ some nodes) ((string_eq.beq_iff x v).0 same) at,
        λ n c. elim (erased n node nodes c) [
          | inl k ↦ inl (subst (λ z. contains n z ≡ true) (e ∙ l) k)
          | inr k ↦ inr (refl, same, k)
        ],
      )
]

hear_unknown :
    (failed : Bool) (node x : String) (m : List (String × List String))
    → lookup x m ≡ none
    → hear failed node x m ≡ (m, false)
unfolding hear
hear_unknown failed node x m e = rw (e, hear) refl

hear_failed :
    (node x : String) (m : List (String × List String)) {nodes : List String}
    → lookup x m ≡ some nodes
    → hear true node x m ≡ (delete x m, false)
unfolding hear
hear_failed node x m e = rw (e, hear) refl

hear_gone :
    (node x : String) (m : List (String × List String)) {nodes : List String}
    → lookup x m ≡ some nodes
    → hear false node x m ≡ settle x (erase_all node nodes) m
unfolding hear
hear_gone node x m {nodes} e = rw (e, hear) refl

pub hear-kept :
    (failed : Bool) (node x v : String) (left : List String) (m : List (String × List String))
    → lookup v (hear failed node x m).0 ≡ some left
    → KeptFrom failed node (string_eq.beq x v) m v left
hear-kept failed node x v left m h = elim (Option-cases (lookup x m)) [
  | inl unknown ↦ (
    left,
    subst (λ r. lookup v r.0 ≡ some left) (hear_unknown failed node x m unknown) h,
    λ n c. inl c,
  )
  | inr (nodes, at) ↦ known failed nodes at h
]
  where
    known :
        (failed : Bool) (nodes : List String)
        → lookup x m ≡ some nodes
        → lookup v (hear failed node x m).0 ≡ some left
        → KeptFrom failed node (string_eq.beq x v) m v left
    known true nodes at h =
        let h' = subst (λ r. lookup v r.0 ≡ some left) (hear_failed node x m at) h in
        (left, ground (arith, lookup-delete x v m, h'), λ n c. inl c)
    known false nodes at h =
        settle-kept node x v nodes left (erase_all node nodes) m at refl
          (subst (λ r. lookup v r.0 ≡ some left) (hear_gone node x m at) h)

settle-fin :
    (x : String) (rest : List String) (m : List (String × List String))
    → (settle x rest m).1 ≡ true
    → rest ≡ []
unfolding settle
settle-fin x [] m h = refl
settle-fin x (y ∷ ys) m h = absurd (cc)

-- A version is done when a report without failure comes from the one node that was left.
abbrev pub LastNode : Bool → String → List (String × List String) → String → Type 0
LastNode failed node m v =
    (failed ≡ false)
    × (nodes : List String) × (lookup v m ≡ some nodes)
    × ((n : String) → contains n nodes ≡ true → n ≡ node)

pub hear-fin :
    (failed : Bool) (node x : String) (m : List (String × List String))
    → (hear failed node x m).1 ≡ true
    → LastNode failed node m x
hear-fin failed node x m h = elim (Option-cases (lookup x m)) [
  | inl unknown ↦ absurd (cc (hear_unknown failed node x m unknown))
  | inr (nodes, at) ↦ known failed nodes at h
]
  where
    known :
        (failed : Bool) (nodes : List String)
        → lookup x m ≡ some nodes
        → (hear failed node x m).1 ≡ true
        → LastNode failed node m x
    known true nodes at h = absurd (cc (hear_failed node x m at))
    known false nodes at h =
        let e =
          settle-fin x (erase_all node nodes) m
            (subst (λ r. r.1 ≡ true) (hear_gone node x m at) h) in
        (
          refl,
          nodes,
          at,
          λ n c. elim (erased n node nodes c) [
            | inr k ↦ k
            | inl k ↦ absurd (true_ne_false k (ap (contains n) e))
          ],
        )

pub hear_loop-kept :
    (failed : Bool) (node v : String) (left vs : List String) (m : List (String × List String))
    → lookup v (hear_loop failed node vs m).0 ≡ some left
    → KeptFrom failed node (contains v vs) m v left
unfolding hear_loop
hear_loop-kept failed node v left [] m h = (left, h, λ n c. inl c)
hear_loop-kept failed node v left (x ∷ vs) m h =
    let (left1, at1, k1) = hear_loop-kept failed node v left vs (hear failed node x m).0 h in
    let (left0, at0, k0) = hear-kept failed node x v left1 m at1 in
    (
      left0,
      at0,
      λ n c. elim (k0 n c) [
        | inr (f, e, s) ↦ inr (f, ground arith, s)
        | inl c1 ↦ elim (k1 n c1) [ inr (f, e, s) ↦ inr (f, ground arith, s) | inl c2 ↦ inl c2 ]
      ],
    )

pub hear_loop-fin :
    (failed : Bool) (node v : String) (vs : List String) (m : List (String × List String))
    → contains v (hear_loop failed node vs m).1 ≡ true
    → (contains v vs ≡ true) × LastNode failed node m v
unfolding hear_loop
hear_loop-fin failed node v [] m h = absurd (cc)
hear_loop-fin failed node v (x ∷ vs) m h = elim (Bool-cases (hear failed node x m).1) [
  | inl fin ↦ elim (Bool-cases (string_eq.beq x v)) [
    | inl same ↦
        let e = (string_eq.beq_iff x v).0 same in
        (ground arith, subst (LastNode failed node m) e (hear-fin failed node x m fin))
    | inr other ↦
        later (hear_loop-fin failed node v vs (hear failed node x m).0 (ground (arith, fin, other)))
  ]
  | inr not_yet ↦
      later (hear_loop-fin failed node v vs (hear failed node x m).0 (ground (arith, not_yet)))
]
  where
    later :
        (contains v vs ≡ true) × LastNode failed node (hear failed node x m).0 v
        → (contains v (x ∷ vs) ≡ true) × LastNode failed node m v
    later (named, last) =
        let (f, left1, at1, k1) = last in
        let (left0, at0, k0) = hear-kept failed node x v left1 m at1 in
        (
          ground arith,
          (f, left0, at0, λ n c. elim (k0 n c) [ inl c1 ↦ k1 n c1 | inr (_, _, s) ↦ s ]),
        )
