-- ===== src/Reconcile/ImageCleanup/Rounds.antt =====
-- When a version's cleanup marker is written, over every order of dispatches and reports.
use birdman.Base.{
  Bool, Bool-cases, List, Option, String, [], ap, arith, contains, delete, false, if◌then◌else◌,
  inl, inr, insert, lookup, lookup-delete, lookup-insert, nat_eq, none, refl, some, some_eq,
  string_eq, subst, sym, true, true_ne_false, ◌&&◌, ◌||◌, ◌∙◌, ◌∷◌, ◌≡◌, ◌⊎◌,
}
use birdman.Reconcile.ImageCleanup.Hearing.{hear_loop-fin, hear_loop-kept}
use birdman.Reconcile.ImageCleanup.{
  Effect, ImageCleaner, RefGroup, WaitKey, expect, expect_nodes, expect_ref, handle_image_report,
  hear_loop, hear_report, is_failed, is_gone, mark_done, new_image_cleaner, versions_of,
  wait_key_eq,
}

-- A dispatch of a group to nodes, and a report of a node on a ref with a status.
pub data Event : Type 0 where
  expected : RefGroup → List String → Event
  reported : String → String → String → Event

-- The latest event first.
abbrev pub History : Type 0
History = List Event

unfoldable pub after : History → ImageCleaner
unfolding expect handle_image_report
after [] = new_image_cleaner
after (Event.expected g nodes ∷ h) = expect g nodes (after h)
after (Event.reported node ref status ∷ h) = (handle_image_report node ref status (after h)).0

-- The nodes of the latest round of a version.
unfoldable pub round_of : String → History → Option (List String)
round_of v [] = none
round_of v (Event.expected g nodes ∷ h) =
    let rest = round_of v h in if contains v g.version_ids then some nodes else rest
round_of v (Event.reported _ _ _ ∷ h) = round_of v h

-- Whether a node has said since the start of the latest round of a version that a ref is gone.
unfoldable pub confirmed : String → String → String → History → Bool
confirmed v node ref [] = false
confirmed v node ref (Event.expected g nodes ∷ h) =
    let rest = confirmed v node ref h in if contains v g.version_ids then false else rest
confirmed v node ref (Event.reported n r status ∷ h) =
    (string_eq.beq n node && string_eq.beq r ref && is_gone status) || confirmed v node ref h

-- Every dispatched group holds versions of its own image_ref.
abbrev pub HasRefs : (String → String) → History → Type 0
HasRefs ref_of [] = Unit
HasRefs ref_of (Event.expected g nodes ∷ h) =
    ((v : String) → contains v g.version_ids ≡ true → ref_of v ≡ g.image_ref) × HasRefs ref_of h
HasRefs ref_of (Event.reported _ _ _ ∷ h) = HasRefs ref_of h

-- The nodes of a round that have not yet confirmed are still awaited.
abbrev Covers : String → String → History → List String → Type 0
Covers v ref h left =
    (nodes : List String) × (round_of v h ≡ some nodes)
    × ((n : String)
        → contains n nodes ≡ true
        → (contains n left ≡ true) ⊎ (confirmed v n ref h ≡ true))

-- Every node of the latest round has confirmed in `h'`.
abbrev pub RoundConfirmed : String → String → History → History → Type 0
RoundConfirmed v ref h h' =
    (nodes : List String) × (round_of v h ≡ some nodes)
    × ((n : String) → contains n nodes ≡ true → confirmed v n ref h' ≡ true)

unfoldable pub marked_in : String → List Effect → Bool
marked_in v [] = false
marked_in v (Effect.mark vs ∷ es) = contains v vs || marked_in v es
marked_in v (_ ∷ es) = marked_in v es

record Inv (ref_of : String → String) (h : History) (c : ImageCleaner) : Type 0 where
  covers :
      (v : String) (left : List String)
      → lookup v c.await_nodes ≡ some left
      → Covers v (ref_of v) h left
  refs :
      (node ref v : String)
      → contains v (versions_of (lookup (node, ref) c.await_ref)) ≡ true
      → ref_of v ≡ ref

lookup-expect_nodes :
    (v : String) (nodes vs : List String) (m : List (String × List String))
    → lookup v (expect_nodes nodes vs m) ≡ (if contains v vs then some nodes else lookup v m)
unfolding expect_nodes
lookup-expect_nodes v nodes [] m = refl
lookup-expect_nodes v nodes (x ∷ vs) m = ground (
  arith,
  lookup-expect_nodes v nodes vs (insert x nodes m),
  lookup-insert x v nodes m,
  string_eq.beq_iff x v,
)

lookup-expect_ref :
    (k : WaitKey) (ref : String) (vs nodes : List String) (m : List (WaitKey × List String))
    → (lookup k (expect_ref ref vs nodes m) ≡ lookup k m)
      ⊎ ((k.1 ≡ ref) × (lookup k (expect_ref ref vs nodes m) ≡ some vs))
unfolding expect_ref
lookup-expect_ref k ref vs [] m = inl refl
lookup-expect_ref k ref vs (n ∷ ns) m =
    elim (lookup-expect_ref k ref vs ns (insert (n, ref) vs m)) [
      | inr found ↦ inr found
      | inl same ↦ elim (Bool-cases (wait_key_eq.beq (n, ref) k)) [
        | inl e ↦ inr (
          ap (λ (p : WaitKey). p.1) (sym ((wait_key_eq.beq_iff (n, ref) k).0 e)),
          same ∙ lookup-insert (n, ref) k vs m ∙ ap (λ b. if b then some vs else lookup k m) e,
        )
        | inr ne ↦
            inl (
              same ∙ lookup-insert (n, ref) k vs m ∙ ap (λ b. if b then some vs else lookup k m) ne)
      ]
    ]

now_confirmed :
    (node ref status n r : String)
    → n ≡ node
    → r ≡ ref
    → (is_gone status || is_failed status) ≡ true
    → is_failed status ≡ false
    → (string_eq.beq node n && string_eq.beq ref r && is_gone status) ≡ true
now_confirmed node ref status n r same_node same_ref known gone = ground (
  arith,
  (string_eq.beq_iff node n).1 (sym same_node),
  (string_eq.beq_iff ref r).1 (sym same_ref),
)

after-Inv : (ref_of : String → String) (h : History) → HasRefs ref_of h → Inv ref_of h (after h)
unfolding after expect handle_image_report hear_report round_of confirmed
after-Inv ref_of [] valid = record {
  covers = λ v left e. absurd (cc);
  refs = λ node ref v e. absurd (cc);
}
after-Inv ref_of (Event.expected g nodes ∷ h) valid =
    let inv = after-Inv ref_of h valid.1 in record { covers = covered inv; refs = named inv }
  where
    covered :
        Inv ref_of h (after h)
        → (v : String) (left : List String)
        → lookup v (expect_nodes nodes g.version_ids (after h).await_nodes) ≡ some left
        → Covers v (ref_of v) (Event.expected g nodes ∷ h) left
    covered inv v left e = elim (Bool-cases (contains v g.version_ids)) [
      | inl new ↦
          let same : nodes ≡ left = some_eq (
            ground (arith, lookup-expect_nodes v nodes g.version_ids (after h).await_nodes, new)) in
          rw new (nodes, refl, λ n c. inl (subst (λ z. contains n z ≡ true) same c))
      | inr old ↦ rw old (
          inv.covers v left
            (ground (arith, lookup-expect_nodes v nodes g.version_ids (after h).await_nodes, old)))
    ]

    named :
        Inv ref_of h (after h)
        → (node ref v : String)
        → contains v (
            versions_of
              (lookup (node, ref) (expect_ref g.image_ref g.version_ids nodes (after h).await_ref)))
          ≡ true
        → ref_of v ≡ ref
    named inv node ref v e =
        elim (lookup-expect_ref (node, ref) g.image_ref g.version_ids nodes (after h).await_ref) [
          | inl same ↦ inv.refs node ref v (subst (λ o. contains v (versions_of o) ≡ true) same e)
          | inr (r, found) ↦
              valid.0 v (subst (λ o. contains v (versions_of o) ≡ true) found e) ∙ sym r
        ]
after-Inv ref_of (Event.reported node ref status ∷ h) valid =
    let inv = after-Inv ref_of h valid in
    elim (Bool-cases (is_gone status || is_failed status)) [
      | inr unknown ↦ rw (unknown, after) (record { covers = earlier inv; refs = inv.refs })
      | inl known ↦ rw (known, after) (record { covers = heard inv known; refs = fewer inv })
    ]
  where
    earlier :
        Inv ref_of h (after h)
        → (v : String) (left : List String) → lookup v (after h).await_nodes ≡ some left
        → Covers v (ref_of v) (Event.reported node ref status ∷ h) left
    earlier inv v left e =
        let (nodes, r, k) = inv.covers v left e in
        (nodes, r, λ n c. elim (k n c) [ inl l ↦ inl l | inr b ↦ inr (ground (arith, b)) ])

    heard :
        Inv ref_of h (after h)
        → (is_gone status || is_failed status) ≡ true
        → (v : String) (left : List String)
        → lookup v
            (hear_loop
              (is_failed status)
              node
              (versions_of (lookup (node, ref) (after h).await_ref))
              (after h).await_nodes).0
          ≡ some left
        → Covers v (ref_of v) (Event.reported node ref status ∷ h) left
    heard inv known v left e =
        let (left0, e0, k0) =
          hear_loop-kept (is_failed status) node v left
            (versions_of (lookup (node, ref) (after h).await_ref)) (after h).await_nodes e in
        let (nodes, r, k) = inv.covers v left0 e0 in
        (
          nodes,
          r,
          λ n c. elim (k n c) [
            | inr b ↦ inr (ground (arith, b))
            | inl l0 ↦ elim (k0 n l0) [
              | inl l ↦ inl l
              | inr (f, named, s) ↦ inr (
                  ground (
                    arith,
                    now_confirmed node ref status n (ref_of v) s (inv.refs node ref v named) known
                        f,
                  ))
            ]
          ],
        )

    fewer :
        Inv ref_of h (after h)
        → (node' ref' v : String)
        → contains v (versions_of (lookup (node', ref') (delete (node, ref) (after h).await_ref)))
          ≡ true
        → ref_of v ≡ ref'
    fewer inv node' ref' v e = elim (Bool-cases (wait_key_eq.beq (node, ref) (node', ref'))) [
      | inl same ↦ absurd (
          true_ne_false e (
            ap (λ o. contains v (versions_of o))
              (lookup-delete (node, ref) (node', ref') (after h).await_ref
                ∙ ap (λ b. if b then none else lookup (node', ref') (after h).await_ref) same)))
      | inr other ↦ inv.refs node' ref' v (
          subst (λ o. contains v (versions_of o) ≡ true)
            (lookup-delete (node, ref) (node', ref') (after h).await_ref
              ∙ ap (λ b. if b then none else lookup (node', ref') (after h).await_ref) other)
            e)
    ]

hear_report-confirmed :
    (ref_of : String → String) (h : History) (node ref status v : String)
    → HasRefs ref_of h
    → (is_gone status || is_failed status) ≡ true
    → contains v (hear_report node ref status (after h)).1 ≡ true
    → RoundConfirmed v (ref_of v) h (Event.reported node ref status ∷ h)
unfolding hear_report confirmed
hear_report-confirmed ref_of h node ref status v valid known fin =
    let inv = after-Inv ref_of h valid in
    let (named, last) =
      hear_loop-fin (is_failed status) node v (versions_of (lookup (node, ref) (after h).await_ref))
        (after h).await_nodes fin in
    let (f, left, at, only) = last in
    let (nodes, r, k) = inv.covers v left at in
    (
      nodes,
      r,
      λ n c. elim (k n c) [
        | inr b ↦ ground (arith, b)
        | inl l ↦ ground (
          arith,
          now_confirmed node ref status n (ref_of v) (only n l) (inv.refs node ref v named) known f,
        )
      ],
    )

marked_in-mark_done :
    (v : String) (vs : List String) → marked_in v (mark_done vs) ≡ true → contains v vs ≡ true
unfolding marked_in
marked_in-mark_done v [] h = absurd (cc)
marked_in-mark_done v (x ∷ vs) h = ground (arith, h)

marked_in-report :
    (node ref status v : String) (c : ImageCleaner)
    → marked_in v (handle_image_report node ref status c).1 ≡ true
    → ((is_gone status || is_failed status) ≡ true)
      × (contains v (hear_report node ref status c).1 ≡ true)
unfolding handle_image_report marked_in
marked_in-report node ref status v c h = elim (Bool-cases (is_gone status || is_failed status)) [
  | inr unknown ↦ absurd (true_ne_false h (rw unknown refl))
  | inl known ↦
      (known, marked_in-mark_done v (hear_report node ref status c).1 (sym (marked known) ∙ h))
]
  where
    marked :
        (is_gone status || is_failed status) ≡ true
        → marked_in v (handle_image_report node ref status c).1
          ≡ marked_in v (mark_done (hear_report node ref status c).1)
    marked known = rw known refl

-- Whatever dispatches and reports come before, in whatever order, of groups that hold versions of
-- their own image_ref: a version that a report has marked as cleaned up has had a round, and every
-- node of its latest round has said since that round began that the version's image is gone.
pub handle_image_report-confirmed :
    (ref_of : String → String) (h : History) (node ref status v : String)
    → HasRefs ref_of h
    → marked_in v (handle_image_report node ref status (after h)).1 ≡ true
    → RoundConfirmed v (ref_of v) h (Event.reported node ref status ∷ h)
handle_image_report-confirmed ref_of h node ref status v valid marked =
    let (known, fin) = marked_in-report node ref status v (after h) marked in
    hear_report-confirmed ref_of h node ref status v valid known fin
