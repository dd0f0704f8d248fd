-- ===== src/Deploy/Marker.antt =====
-- The marker of an environment only goes forward.
use birdman.Base.{
  Bool-cases, List, String, Text, [], ap, arith, beq_refl, codes, false, if◌then◌else◌, inl, inr,
  insert, lookup-insert, nat_eq, refl, string_eq, subst, sym, true, true_ne_false, ℕ, ◌∙◌, ◌∷◌, ◌≡◌,
  ◌≢◌,
}
use birdman.Deploy.{
  CreatedId, Manager, ProjectEnv, Version, cleanup_disabled, marker, newer_than, pair_beq_iff,
  pair_eq, record_attempt, text_ltb,
}

text_ltb_trans : (a b c : Text) → text_ltb a b ≡ true → text_ltb b c ≡ true → text_ltb a c ≡ true
text_ltb_trans [] [] c h k = cc
text_ltb_trans [] (d ∷ ds) [] h k = cc
text_ltb_trans [] (d ∷ ds) (e ∷ es) h k = refl
text_ltb_trans (x ∷ xs) [] c h k = cc
text_ltb_trans (x ∷ xs) (d ∷ ds) [] h k = cc
text_ltb_trans (x ∷ xs) (d ∷ ds) (e ∷ es) h k = ground (arith, text_ltb_trans xs ds es)

text_ltb_irrefl : (a : Text) → text_ltb a a ≡ false
text_ltb_irrefl [] = refl
text_ltb_irrefl (x ∷ xs) = ground (arith, text_ltb_irrefl xs)

newer_than_trans :
    (created : ℕ) (id : String) (mk' mk : CreatedId)
    → newer_than created id mk' ≡ true
    → newer_than mk'.created_at mk'.id mk ≡ true
    → newer_than created id mk ≡ true
unfolding newer_than
newer_than_trans created id mk' mk h k =
    ground (arith, text_ltb_trans (codes mk.id) (codes mk'.id) (codes id))

newer_than_irrefl :
    (created : ℕ) (id : String)
    → newer_than created id (record { created_at = created; id = id }) ≡ false
unfolding newer_than
newer_than_irrefl created id = ground (arith, text_ltb_irrefl (codes id))

-- What the marker of `pe` has left behind stays behind it.
abbrev pub Forward : ProjectEnv → Manager → Manager → Type 0
Forward pe m m' =
    (created : ℕ) (id : String)
    → newer_than created id (marker m pe) ≡ false
    → newer_than created id (marker m' pe) ≡ false

pub Forward-trans :
    (pe : ProjectEnv) (a b c : Manager) → Forward pe a b → Forward pe b c → Forward pe a c
Forward-trans pe a b c f g created id h = g created id (f created id h)

marker-insert :
    (m : Manager) (key pe : ProjectEnv) (mk : CreatedId)
    → marker (record m { last_attempted = insert key mk m.last_attempted }) pe
      ≡ (if pair_eq.beq key pe then mk else marker m pe)
marker-insert m key pe mk =
    rw (lookup-insert key pe mk m.last_attempted, marker)
      (elim (Bool-cases (pair_eq.beq key pe)) [
        | inl same ↦ rw same refl
        | inr other ↦ rw other refl
      ])

-- The marker moves up to a newer version.
raised :
    (pe : ProjectEnv) (m : Manager) (v : Version)
    → newer_than v.created_at v.id (marker m (v.project, v.env)) ≡ true
    → (created : ℕ) (id : String) → newer_than created id (marker m pe) ≡ false
    → newer_than created id (
        if pair_eq.beq (v.project, v.env) pe
        then record { created_at = v.created_at; id = v.id }
        else marker m pe)
      ≡ false
raised pe m v newer created id h =
    let mk : CreatedId = record { created_at = v.created_at; id = v.id } in
    elim (Bool-cases (pair_eq.beq (v.project, v.env) pe)) [
      | inr other ↦ rw other h
      | inl same ↦
          let here : newer_than created id (marker m (v.project, v.env)) ≡ false =
            subst (λ q. newer_than created id (marker m q) ≡ false)
              (sym ((pair_beq_iff (v.project, v.env) pe).0 same)) h in
          rw same (elim (Bool-cases (newer_than created id mk)) [
            | inr behind ↦ behind
            | inl ahead ↦ absurd (
                true_ne_false
                  (newer_than_trans created id mk (marker m (v.project, v.env)) ahead newer) here)
          ])
    ]

pub record_attempt-Forward :
    (pe : ProjectEnv) (m : Manager) (v : Version) → Forward pe m (record_attempt m v)
unfolding record_attempt
record_attempt-Forward pe m v created id h = elim (Bool-cases (string_eq.beq v.id "")) [
  | inl empty ↦ rw empty h
  | inr named ↦ elim (Bool-cases (newer_than v.created_at v.id (marker m (v.project, v.env)))) [
    | inr older ↦ rw named (rw (older, record_attempt) h)
    | inl newer ↦ rw named (
        rw (newer, record_attempt)
          (ap (λ mk. newer_than created id mk)
              (marker-insert m (v.project, v.env) pe
                (record { created_at = v.created_at; id = v.id }))
            ∙ raised pe m v newer created id h))
  ]
]

-- A version that was attempted is behind the marker of its environment.
pub record_attempt-behind :
    (m : Manager) (v : Version)
    → v.id ≢ ""
    → newer_than v.created_at v.id (marker (record_attempt m v) (v.project, v.env)) ≡ false
unfolding record_attempt
record_attempt-behind m v ne = elim (Bool-cases (string_eq.beq v.id "")) [
  | inl empty ↦ absurd (ne ((string_eq.beq_iff v.id "").0 empty))
  | inr named ↦ elim (Bool-cases (newer_than v.created_at v.id (marker m (v.project, v.env)))) [
    | inr older ↦ rw named (rw (older, record_attempt) older)
    | inl newer ↦ rw named (
        rw (newer, record_attempt)
          (ap (λ mk. newer_than v.created_at v.id mk)
              (marker-insert m (v.project, v.env) (v.project, v.env)
                (record { created_at = v.created_at; id = v.id }))
            ∙ rw (pair_refl v.project v.env) (newer_than_irrefl v.created_at v.id)))
  ]
]
  where
    pair_refl : (p e : String) → pair_eq.beq (p, e) (p, e) ≡ true
    pair_refl p e = rw (beq_refl p) (beq_refl e)

pub same_marker :
    (pe : ProjectEnv) (m m' : Manager) → m'.last_attempted ≡ m.last_attempted → Forward pe m m'
same_marker pe m m' e created id h = rw (e, marker) h

pub cleanup_same :
    (m : Manager) (ds : List String) → (cleanup_disabled m ds).last_attempted ≡ m.last_attempted
unfolding cleanup_disabled
cleanup_same m [] = refl
cleanup_same m (d ∷ ds) = refl
