-- ===== src/Deploy/Warm.antt =====
-- What pays for an activation: a fan-out that all its nodes have answered, or the store's answer that
-- there are no nodes.
use birdman.Base.{
  Bool, List, Option, Option-cases, String, [], arith, erase_all, false, if◌then◌else◌, inl, inr,
  lookup, nat_eq, none, refl, some, some_eq, string_eq, subst, suc, true, zero, ℕ, ◌&&◌, ◌+◌, ◌∷◌,
  ◌≡◌, ◌≤◌,
}
use birdman.Deploy.{
  Effect, Job, Manager, Task, activated, fans_out, flips, found, heard, notes, take_task,
}
use birdman.Deploy.Jobs.{}

-- The nodes of the newest fan-out of `id` that no report of `pulled` was taken from since.
unfoldable pub awaited : String → List Effect → Option (List String)
awaited id [] = none
awaited id (fans_out v ns ∷ es) =
    let rest = awaited id es in if string_eq.beq v id then some ns else rest
awaited id (heard n v ∷ es) =
    let rest = awaited id es in
    if string_eq.beq v id then elim rest [ none ↦ none | some ns ↦ some (erase_all n ns) ] else rest
awaited id (_ ∷ es) = awaited id es

abbrev pub is_done : Option (List String) → Bool
is_done none = false
is_done (some []) = true
is_done (some (n ∷ ns)) = false

-- How often a deploy of `id` was complete: with the report that its fan-out waited for last, or with
-- the answer that there are no nodes.
unfoldable pub completions : String → List Effect → ℕ
unfolding awaited
completions id [] = 0
completions id (found v [] ∷ es) =
    let rest = completions id es in if string_eq.beq v id then suc rest else rest
completions id (heard n v ∷ es) =
    let rest = completions id es in
    if string_eq.beq v id && is_done (awaited id (heard n v ∷ es)) then suc rest else rest
completions id (_ ∷ es) = completions id es

-- How often a deploy has activated `id`.
unfoldable pub activations : String → List Effect → ℕ
activations id [] = 0
activations id (activated v ∷ es) =
    let rest = activations id es in if string_eq.beq v id then suc rest else rest
activations id (_ ∷ es) = activations id es

-- The goroutines that are about to activate `id`.
unfoldable pub cost : String → Task → ℕ
cost id (flips v) = if string_eq.beq v.id id then 1 else 0
cost id (notes n v true) = if string_eq.beq v.id id then 1 else 0
cost id _ = 0

unfoldable pub coming : String → List Task → ℕ
coming id [] = 0
coming id (t ∷ ts) = cost id t + coming id ts

-- A job stands under its version and waits for exactly the awaited nodes.
abbrev pub IsAwaiting : List Effect → String → Job → Type 0
IsAwaiting es id j = (j.version.id ≡ id) × (awaited id es ≡ some j.pending)

abbrev pub IsPaid : List Task → List Effect → String → Type 0
IsPaid tasks es id = activations id es + coming id tasks ≤ completions id es

pub record IsWarm (jobs : List (String × Job)) (tasks : List Task) (es : List Effect) : Type 0 where
  pub waits : (id : String) (j : Job) → lookup id jobs ≡ some j → IsAwaiting es id j
  pub paid : (id : String) → IsPaid tasks es id

abbrev pub Warm : Manager → Type 0
Warm m = IsWarm m.jobs m.tasks m.effects

pub coming-take_task :
    (id : String) (i : ℕ) (ts us : List Task) (t : Task)
    → take_task i ts ≡ some (t, us)
    → coming id ts ≡ cost id t + coming id us
unfolding take_task coming
coming-take_task id i [] us t e = absurd (cc)
coming-take_task id zero (x ∷ xs) us t e =
    let p : (x, xs) ≡ (t, us) = some_eq e in
    subst (λ (q : Task × List Task). cost id x + coming id xs ≡ cost id q.0 + coming id q.1) p refl
coming-take_task id (suc i) (x ∷ xs) us t e = elim (Option-cases (take_task i xs)) [
  | inl none_ ↦ absurd (let k = rw none_ at e in cc)
  | inr ((u, rest), e') ↦
      let p : (u, x ∷ rest) ≡ (t, us) = some_eq (rw e' at e) in
      let n = coming-take_task id i xs rest u e' in
      subst (λ (q : Task × List Task). cost id x + coming id xs ≡ cost id q.0 + coming id q.1) p
        (omega (arith, n))
]
