-- ===== src/Reconcile/ImageCleanup.antt =====
-- The removal of retired images from the fleet (`ImageCleaner`,
-- master/internal/reconcile/imagecleanup.go). The mutex makes `expect` and the part of
-- `HandleImageReport` that it guards one step each. Sets of nodes are lists; the database and the
-- live sessions are a world that the operations ask; what they send and write is a list of effects.
mod Hearing
pub mod Grouping
pub mod Rounds
pub mod Sweeping
mod Runs
use Prim.Native.String.{◌++◌ as str_append}
use birdman.Base.{
  &&-true, Bool, Eq, List, Option, String, [], ap, arith, delete, erase_all, false, if◌then◌else◌,
  insert, keep_if, length, lookup, nat_eq, none, not, some, string_eq, true, ℕ, ◌&&◌, ◌++◌, ◌+◌,
  ◌||◌, ◌↔◌, ◌∷◌, ◌≡◌,
}

pub record RefGroup : Type 0 where
  pub project_id : String
  pub env : String
  pub image_ref : String
  pub semver : String
  pub version_ids : List String

-- A version that has gone to `disabled` (`store.DisabledVersion`).
pub record DisabledVersion : Type 0 where
  pub version_id : String
  pub project_id : String
  pub env : String
  pub image_ref : String
  pub semver : String

-- A node and an image_ref.
abbrev pub WaitKey : Type 0
WaitKey = String × String

pub pair_iff : (a b : WaitKey) → ((string_eq.beq a.0 b.0 && string_eq.beq a.1 b.1) ≡ true) ↔ (a ≡ b)
pair_iff (a, b) (c, d) = (
  λ h.
      let (h0, h1) = &&-true (string_eq.beq a c) (string_eq.beq b d) h in
      let e0 = (string_eq.beq_iff a c).0 h0 in let e1 = (string_eq.beq_iff b d).0 h1 in cc,
  λ e.
      let e0 : a ≡ c = ap (λ (p : WaitKey). p.0) e in
      let e1 : b ≡ d = ap (λ (p : WaitKey). p.1) e in
      ground (arith, (string_eq.beq_iff a c).1 e0, (string_eq.beq_iff b d).1 e1),
)

instance abbrev pub wait_key_eq : Eq WaitKey
wait_key_eq = record {
  beq = λ a b. string_eq.beq a.0 b.0 && string_eq.beq a.1 b.1;
  beq_iff = λ a b. pair_iff a b;
}

pub record ImageCleaner : Type 0 where
  pub await_nodes : List (String × List String)
  pub await_ref : List (WaitKey × List String)

abbrev pub new_image_cleaner : ImageCleaner
new_image_cleaner = record { await_nodes = []; await_ref = [] }

-- The store's and the hub's answers: `none` and `false` of `mark_image_cleanup_sent` are errors.
pub record World : Type 0 where
  pub image_ref_in_use : String → String → String → Option Bool
  pub env_node_ids : String → String → Option (List String)
  pub mark_image_cleanup_sent : List String → Bool
  pub has_session : String → Bool

pub data Effect : Type 0 where
  send : String → String → Effect
  mark : List String → Effect
  count : String → Effect

-- `idx` of the source holds where a key's group stands; NUL joins its parts.
abbrev pub key : String → String → String → String
key project env ref = str_append project (str_append "\0" (str_append env (str_append "\0" ref)))

unfoldable pub place : DisabledVersion → List RefGroup → List RefGroup
place d [] =
    record {
      project_id = d.project_id;
      env = d.env;
      image_ref = d.image_ref;
      semver = d.semver;
      version_ids = d.version_id ∷ [];
    }
    ∷ []
place d (g ∷ gs) =
    let rest = place d gs in
    if string_eq.beq (key g.project_id g.env g.image_ref) (key d.project_id d.env d.image_ref)
    then record g { version_ids = g.version_ids ++ d.version_id ∷ [] } ∷ gs
    else g ∷ rest

unfoldable pub group_loop : List RefGroup → List DisabledVersion → List RefGroup
unfolding place
group_loop out [] = out
group_loop out (d ∷ ds) = group_loop (if string_eq.beq d.image_ref "" then out else place d out) ds

unfoldable pub group_by_ref : List DisabledVersion → List RefGroup
unfolding group_loop
group_by_ref disabled = group_loop [] disabled

-- The nodes of a group's environment, and whether the command is withheld.
unfoldable pub targets : World → RefGroup → Option (List String × Bool)
targets w g = elim (w.image_ref_in_use g.project_id g.env g.image_ref) [
  | none ↦ none
  | some true ↦ some ([], true)
  | some false ↦ elim (w.env_node_ids g.project_id g.env) [
    | none ↦ none
    | some nodes ↦ some (nodes, false)
  ]
]

unfoldable pub offline : World → List String → List String
offline w nodes = keep_if (λ n. not (w.has_session n)) nodes

unfoldable pub expect_nodes :
    List String → List String → List (String × List String) → List (String × List String)
expect_nodes nodes [] m = m
expect_nodes nodes (v ∷ vs) m = expect_nodes nodes vs (insert v nodes m)

unfoldable pub expect_ref :
    String → List String → List String → List (WaitKey × List String) → List (WaitKey × List String)
expect_ref ref versions [] m = m
expect_ref ref versions (n ∷ ns) m = expect_ref ref versions ns (insert (n, ref) versions m)

unfoldable pub expect : RefGroup → List String → ImageCleaner → ImageCleaner
unfolding expect_nodes expect_ref
expect g nodes c = record {
  await_nodes = expect_nodes nodes g.version_ids c.await_nodes;
  await_ref = expect_ref g.image_ref g.version_ids nodes c.await_ref;
}

abbrev send_all : String → List String → List Effect
send_all ref [] = []
send_all ref (n ∷ ns) = Effect.send n ref ∷ send_all ref ns

-- The fast path: its effects, and whether it ended without an error.
unfoldable pub cleanup_loop : World → List Effect → List RefGroup → List Effect × Bool
unfolding targets
cleanup_loop w sent [] = (sent, true)
cleanup_loop w sent (g ∷ gs) = elim (targets w g) [
  | none ↦ (sent, false)
  | some (nodes, true) ↦ cleanup_loop w sent gs
  | some (nodes, false) ↦ cleanup_loop w (sent ++ send_all g.image_ref nodes) gs
]

unfoldable pub cleanup_images : World → List DisabledVersion → List Effect × Bool
unfolding cleanup_loop group_by_ref
cleanup_images w disabled = cleanup_loop w [] (group_by_ref disabled)

pub record SweepResult : Type 0 where
  pub dispatched : ℕ
  pub skipped : ℕ
  pub marked : ℕ

pub record Swept : Type 0 where
  pub cleaner : ImageCleaner
  pub result : SweepResult
  pub effects : List Effect
  pub ok : Bool

-- One round of the loop of `SweepImages`.
unfoldable pub sweep_group : World → Swept → RefGroup → Swept
unfolding targets offline expect
sweep_group w s g = elim (targets w g) [
  | none ↦ record s { ok = false }
  | some (nodes, true) ↦
      let res = s.result in
      record s { result = record res { skipped = res.skipped + length g.version_ids } }
  | some ([], false) ↦
      let res = s.result in
      let effects = s.effects ++ Effect.mark g.version_ids ∷ [] in
      elim (w.mark_image_cleanup_sent g.version_ids) [
        | false ↦ record s { effects = effects; ok = false }
        | true ↦ record s {
          effects = effects;
          result = record res { marked = res.marked + length g.version_ids };
        }
      ]
  | some (n ∷ ns, false) ↦
      let res = s.result in
      elim (offline w (n ∷ ns)) [
        | _ ∷ _ ↦ record s { result = record res { skipped = res.skipped + length g.version_ids } }
        | [] ↦ record s {
          cleaner = expect g (n ∷ ns) s.cleaner;
          effects = s.effects ++ send_all g.image_ref (n ∷ ns);
          result = record res { dispatched = res.dispatched + length g.version_ids };
        }
      ]
]

unfoldable pub sweep_loop : World → Swept → List RefGroup → Swept
unfolding sweep_group
sweep_loop w s [] = s
sweep_loop w s (g ∷ gs) =
    let s' = sweep_group w s g in elim s'.ok [ true ↦ sweep_loop w s' gs | false ↦ s' ]

unfoldable pub sweep_images : World → ImageCleaner → List DisabledVersion → Swept
unfolding sweep_loop group_by_ref
sweep_images w c disabled =
    sweep_loop w
      (record {
        cleaner = c;
        result = record { dispatched = 0; skipped = 0; marked = 0 };
        effects = [];
        ok = true;
      })
      (group_by_ref disabled)

abbrev pub is_gone : String → Bool
is_gone status = string_eq.beq status "removed" || string_eq.beq status "absent"

abbrev pub is_failed : String → Bool
is_failed status = string_eq.beq status "busy" || string_eq.beq status "error"

-- What is left of a version's nodes, and whether the version is done.
unfoldable pub settle :
    String → List String → List (String × List String) → List (String × List String) × Bool
settle v [] m = (delete v m, true)
settle v (n ∷ ns) m = (insert v (n ∷ ns) m, false)

-- One round of the loop over a report's versions.
unfoldable pub hear :
    Bool → String → String → List (String × List String) → List (String × List String) × Bool
unfolding settle
hear failed node v m = elim (lookup v m) [
  | none ↦ (m, false)
  | some nodes ↦ if failed then (delete v m, false) else settle v (erase_all node nodes) m
]

unfoldable pub hear_loop :
    Bool
    → String
    → List String
    → List (String × List String)
    → List (String × List String) × List String
unfolding hear
hear_loop failed node [] m = (m, [])
hear_loop failed node (v ∷ vs) m =
    let (m', fin) = hear failed node v m in
    let (m'', finished) = hear_loop failed node vs m' in
    (m'', if fin then v ∷ finished else finished)

abbrev versions_of : Option (List String) → List String
versions_of none = []
versions_of (some vs) = vs

-- The guarded part: the cleaner after the report, and the versions that are done.
unfoldable pub hear_report : String → String → String → ImageCleaner → ImageCleaner × List String
unfolding hear_loop
hear_report node ref status c =
    let heard =
      hear_loop (is_failed status) node (versions_of (lookup (node, ref) c.await_ref))
        c.await_nodes in
    (record { await_nodes = heard.0; await_ref = delete (node, ref) c.await_ref }, heard.1)

-- The write after the guarded part; an empty list has none.
abbrev pub mark_done : List String → List Effect
mark_done [] = []
mark_done (v ∷ vs) = Effect.mark (v ∷ vs) ∷ []

unfoldable pub handle_image_report :
    String → String → String → ImageCleaner → ImageCleaner × List Effect
unfolding hear_report
handle_image_report node ref status c =
    let heard = hear_report node ref status c in
    if is_gone status || is_failed status
    then (heard.0, Effect.count status ∷ mark_done heard.1)
    else (c, [])
