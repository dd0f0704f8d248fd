-- ===== src/AgentLink/LogRouter.antt =====
-- How chunks of logs reach the requests that wait for them (master/internal/agentlink/logrouter.go).
-- The mutex makes each method one step. `LogChunk` is generated code, a type `C`; a subscription is
-- what lies in its channel.
mod Runs
use birdman.Base.{
  Bool, Bool-cases, List, Option-cases, String, [], ap, delete, if◌then◌else◌, inl, inr, insert,
  length, lookup, lookup-insert, ltb, nat_eq, none, refl, some, string_eq, sym, ℕ, ◌++◌, ◌∙◌, ◌∷◌,
  ◌≡◌,
}

abbrev pub chunk_cap : ℕ
chunk_cap = 256

module _ {ℓ} {C : Type ℓ} where
  unfoldable pub register : String → List (String × List C) → List (String × List C)
  register cmd subs = insert cmd [] subs

  -- `once` is whether this cancel was called before.
  unfoldable pub cancel : Bool → String → List (String × List C) → List (String × List C)
  cancel once cmd subs = if once then subs else delete cmd subs

  abbrev offered : List C → C → List C
  offered chunks c = if ltb (length chunks) chunk_cap then chunks ++ c ∷ [] else chunks

  unfoldable pub dispatch : String → C → List (String × List C) → List (String × List C)
  dispatch cmd c subs = elim (lookup cmd subs) [
    | none ↦ subs
    | some chunks ↦ insert cmd (offered chunks c) subs
  ]

  -- A chunk goes to the subscription of its command and to no other, which gets it after what lies
  -- there already unless 256 chunks do; a chunk for no subscription is dropped.
  pub lookup-dispatch :
      (cmd j : String) (c : C) (subs : List (String × List C))
      → lookup j (dispatch cmd c subs) ≡ (
          if string_eq.beq cmd j
          then elim (lookup cmd subs) [
            | none ↦ none
            | some chunks ↦
                some (if ltb (length chunks) chunk_cap then chunks ++ c ∷ [] else chunks)
          ]
          else lookup j subs)
  unfolding dispatch
  lookup-dispatch cmd j c subs = elim (Option-cases (lookup cmd subs)) [
    | inl missing ↦ elim (Bool-cases (string_eq.beq cmd j)) [
      | inl same ↦
          let e = (string_eq.beq_iff cmd j).0 same in
          rw (missing, same, dispatch) (ap (λ z. lookup z subs) (sym e) ∙ missing)
      | inr other ↦ rw (missing, other, dispatch) refl
    ]
    | inr (chunks, e) ↦ rw (e, dispatch) (lookup-insert cmd j (offered chunks c) subs)
  ]
