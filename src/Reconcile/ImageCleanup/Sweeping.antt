-- ===== src/Reconcile/ImageCleanup/Sweeping.antt =====
-- What one pass over the retired versions sends and marks.
use birdman.Base.{
  ◌<◌, All, All-append, Bool, Bool-cases, List, Option, String, [], arith, beq_refl, contains,
  false, inl, inr, keep_if, length, length-append, nat_eq, none, not, refl, some, string_eq, subst,
  suc, true, ||-true, ℕ, ◌+◌, ◌∷◌, ◌≡◌,
}
use birdman.Reconcile.ImageCleanup.Grouping.{From, IsAmong, IsPlain, IsWhole, group_loop-IsWhole}
use birdman.Reconcile.ImageCleanup.{
  DisabledVersion, Effect, ImageCleaner, RefGroup, SweepResult, Swept, World, group_by_ref,
  group_loop, key, offline, place, send_all, sweep_group, sweep_images, sweep_loop, targets,
}

-- What a sweep over `ds` may do in a world. A removal goes to a node of the environment of a version
-- of `ds` with that ref, where no version that is not disabled has the ref, and all of whose nodes are
-- connected. A marker is written for versions of `ds` in whose environments there is no node.
abbrev pub HasNoNode : List DisabledVersion → World → String → Type 0
HasNoNode ds w id =
    (d : DisabledVersion) × IsAmong d ds
    × (d.version_id ≡ id)
    × (w.env_node_ids d.project_id d.env ≡ some [])

abbrev pub IsAllowed : List DisabledVersion → World → Effect → Type 0
IsAllowed ds w (Effect.send node ref) =
    (d : DisabledVersion) × (nodes : List String) × IsAmong d ds
    × (d.image_ref ≡ ref)
    × (w.image_ref_in_use d.project_id d.env ref ≡ some false)
    × (w.env_node_ids d.project_id d.env ≡ some nodes)
    × (contains node nodes ≡ true)
    × ((n : String) → contains n nodes ≡ true → w.has_session n ≡ true)
IsAllowed ds w (Effect.mark versions) = All (HasNoNode ds w) versions
IsAllowed ds w (Effect.count status) = ⊥

online :
    (w : World) (nodes : List String)
    → offline w nodes ≡ []
    → (n : String) → contains n nodes ≡ true
    → w.has_session n ≡ true
unfolding offline
online w [] e n c = absurd (cc)
online w (x ∷ xs) e n c = elim (Bool-cases (w.has_session x)) [
  | inr gone ↦ absurd (ground (arith, gone, e))
  | inl here ↦ elim (||-true (string_eq.beq x n) (contains n xs) c) [
    | inl same ↦ subst (λ z. w.has_session z ≡ true) ((string_eq.beq_iff x n).0 same) here
    | inr later ↦ online w xs (ground (arith, here, e)) n later
  ]
]

targets-some :
    (w : World) (g : RefGroup) (nodes : List String)
    → targets w g ≡ some (nodes, false)
    → (w.image_ref_in_use g.project_id g.env g.image_ref ≡ some false)
      × (w.env_node_ids g.project_id g.env ≡ some nodes)
unfolding targets
targets-some w g nodes h = ground arith

send_all-IsAllowed :
    (ds : List DisabledVersion) (w : World) (g : RefGroup) (nodes left : List String)
    → (id : String) → From ds g.project_id g.env g.image_ref id
    → targets w g ≡ some (nodes, false)
    → ((n : String) → contains n nodes ≡ true → w.has_session n ≡ true)
    → ((n : String) → contains n left ≡ true → contains n nodes ≡ true)
    → All (IsAllowed ds w) (send_all g.image_ref left)
send_all-IsAllowed ds w g nodes [] id f t s k = tt
send_all-IsAllowed ds w g nodes (n ∷ ns) id f t s k =
    let (free, env) = targets-some w g nodes t in
    let d = f.version in
    let free' : w.image_ref_in_use d.project_id d.env g.image_ref ≡ some false =
      rw (f.of_project, f.of_env) free in
    let env' : w.env_node_ids d.project_id d.env ≡ some nodes = rw (f.of_project, f.of_env) env in
    (
      (d, nodes, f.among, f.of_ref, free', env', k n (ground (arith, beq_refl n)), s),
      send_all-IsAllowed ds w g nodes ns id f t s (λ m c. k m (ground (arith, c))),
    )

mark-HasNoNode :
    (ds : List DisabledVersion) (w : World) (g : RefGroup) (ids : List String)
    → w.env_node_ids g.project_id g.env ≡ some []
    → All (From ds g.project_id g.env g.image_ref) ids
    → All (HasNoNode ds w) ids
mark-HasNoNode ds w g [] env f = tt
mark-HasNoNode ds w g (id ∷ ids) env f =
    let v = f.0 in
    let env' : w.env_node_ids v.version.project_id v.version.env ≡ some [] =
      rw (v.of_project, v.of_env) env in
    ((v.version, v.among, v.named, env'), mark-HasNoNode ds w g ids env f.1)

first_version :
    (ds : List DisabledVersion) (p e r : String) (ids : List String)
    → 0 < length ids
    → All (From ds p e r) ids
    → (id : String) × From ds p e r id
first_version ds p e r [] h f = absurd (omega (arith, h))
first_version ds p e r (id ∷ ids) h f = (id, f.0)

abbrev pub total : SweepResult → ℕ
total r = r.dispatched + r.skipped + r.marked

record SweptWell (ds : List DisabledVersion) (w : World) (s : Swept) (g : RefGroup) (s' : Swept)
    : Type 0 where
  allowed : All (IsAllowed ds w) s.effects → All (IsAllowed ds w) s'.effects
  counted : s'.ok ≡ true → total s'.result ≡ total s.result + length g.version_ids

sweep_group-SweptWell :
    (ds : List DisabledVersion) (w : World) (s : Swept) (g : RefGroup)
    → IsWhole ds g
    → SweptWell ds w s g (sweep_group w s g)
unfolding sweep_group
sweep_group-SweptWell ds w s g whole = go (targets w g) refl
  where
    one : (id : String) × From ds g.project_id g.env g.image_ref id
    one =
        first_version ds g.project_id g.env g.image_ref g.version_ids whole.some_version whole.from

    reached :
        (n : String) (ns out : List String)
        → targets w g ≡ some (n ∷ ns, false)
        → offline w (n ∷ ns) ≡ out
        → SweptWell ds w s g (sweep_group w s g)
    reached n ns [] t o =
        rw (t, o, sweep_group)
          (record {
            allowed = λ a. All-append (IsAllowed ds w) s.effects (send_all g.image_ref (n ∷ ns)) a (
                send_all-IsAllowed ds w g (n ∷ ns) (n ∷ ns) one.0 one.1 t (online w (n ∷ ns) o)
                  (λ _ c. c));
            counted = λ _. omega arith;
          })
    reached n ns (x ∷ xs) t o =
        rw (t, o, sweep_group) (record { allowed = λ a. a; counted = λ _. omega arith })

    written :
        (b : Bool)
        → targets w g ≡ some ([], false)
        → w.mark_image_cleanup_sent g.version_ids ≡ b
        → SweptWell ds w s g (sweep_group w s g)
    written false t m =
        rw (t, m, sweep_group)
          (record {
            allowed = λ a.
                All-append (IsAllowed ds w) s.effects (Effect.mark g.version_ids ∷ []) a
                  (mark-HasNoNode ds w g g.version_ids (targets-some w g [] t).1 whole.from, tt);
            counted = λ e. absurd (cc);
          })
    written true t m =
        rw (t, m, sweep_group)
          (record {
            allowed = λ a.
                All-append (IsAllowed ds w) s.effects (Effect.mark g.version_ids ∷ []) a
                  (mark-HasNoNode ds w g g.version_ids (targets-some w g [] t).1 whole.from, tt);
            counted = λ _. omega arith;
          })

    go :
        (t : Option (List String × Bool)) → targets w g ≡ t → SweptWell ds w s g (sweep_group w s g)
    go none e = rw (e, sweep_group) (record { allowed = λ a. a; counted = λ f. absurd (cc) })
    go (some (nodes, true)) e =
        rw (e, sweep_group) (record { allowed = λ a. a; counted = λ _. omega arith })
    go (some ([], false)) e = written (w.mark_image_cleanup_sent g.version_ids) e refl
    go (some (n ∷ ns, false)) e = reached n ns (offline w (n ∷ ns)) e refl

abbrev versions_in : List RefGroup → ℕ
versions_in [] = 0
versions_in (g ∷ gs) = length g.version_ids + versions_in gs

sweep_loop_lem :
    (ds : List DisabledVersion) (w : World) (s : Swept) (gs : List RefGroup)
    → All (IsWhole ds) gs
    → All (IsAllowed ds w) s.effects
    → All (IsAllowed ds w) (sweep_loop w s gs).effects
      × ((sweep_loop w s gs).ok ≡ true
          → total (sweep_loop w s gs).result ≡ total s.result + versions_in gs)
unfolding sweep_loop
sweep_loop_lem ds w s [] whole a = (a, λ _. omega arith)
sweep_loop_lem ds w s (g ∷ gs) whole a =
    let well = sweep_group-SweptWell ds w s g whole.0 in
    let s' = sweep_group w s g in
    elim (Bool-cases s'.ok) [
      | inl ok ↦
          let (b, c) = sweep_loop_lem ds w s' gs whole.1 (well.allowed a) in
          let n = well.counted ok in rw (ok, sweep_loop) (b, λ e. let m = c e in omega arith)
      | inr failed ↦ rw (failed, sweep_loop) (well.allowed a, λ e. absurd (cc))
    ]

place_count :
    (d : DisabledVersion) (gs : List RefGroup) → versions_in (place d gs) ≡ suc (versions_in gs)
unfolding place
place_count d [] = refl
place_count d (g ∷ gs) =
    elim (Bool-cases
      (string_eq.beq (key g.project_id g.env g.image_ref) (key d.project_id d.env d.image_ref))) [
        | inl same ↦
            let n = length-append g.version_ids (d.version_id ∷ []) in
            rw (same, place) (omega arith)
        | inr other ↦ let n = place_count d gs in rw (other, place) (omega arith)
      ]

abbrev pub with_ref : List DisabledVersion → List DisabledVersion
with_ref disabled = keep_if (λ d. not (string_eq.beq d.image_ref "")) disabled

group_loop_count :
    (out : List RefGroup) (ds : List DisabledVersion)
    → versions_in (group_loop out ds) ≡ versions_in out + length (with_ref ds)
unfolding group_loop
group_loop_count out [] = omega arith
group_loop_count out (d ∷ ds) = elim (Bool-cases (string_eq.beq d.image_ref "")) [
  | inl bare ↦ let n = group_loop_count out ds in rw (bare, group_loop) n
  | inr named ↦
      let n = group_loop_count (place d out) ds in
      let m = place_count d out in rw (named, group_loop) (omega arith)
]

-- A sweep over versions whose project and environment hold no byte 0 only ever sends a removal to a
-- node of the environment of one of these versions, for its ref, where the ref is free and every node
-- of the environment is connected; and it marks, without a report, only versions of these in whose own
-- environment there is no node. Without an error its three counts add up to the number of the versions
-- that have a ref.
pub sweep_images-IsAllowed :
    (w : World) (c : ImageCleaner) (disabled : List DisabledVersion)
    → All IsPlain disabled
    → let s = sweep_images w c disabled in
      All (IsAllowed disabled w) s.effects
      × (s.ok ≡ true → total s.result ≡ length (with_ref disabled))
unfolding sweep_images group_by_ref
sweep_images-IsAllowed w c disabled plain =
    let (a, n) =
      sweep_loop_lem disabled w
        (record {
          cleaner = c;
          result = record { dispatched = 0; skipped = 0; marked = 0 };
          effects = [];
          ok = true;
        })
        (group_loop [] disabled) (group_loop-IsWhole disabled disabled [] (λ d k. k) plain tt) tt in
    (a, λ e. let k = n e in let m = group_loop_count [] disabled in omega arith)
