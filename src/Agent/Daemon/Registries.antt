-- ===== src/Agent/Daemon/Registries.antt =====
-- The credentials of image pulls: the store of the master's credentials
-- (agent/internal/daemon/registries.go), and `resolveRegistryAuth` with its fallback on the
-- agent's own file. Hosts are ASCII; a token file is read anew at each use and may fail.
use birdman.Base.{
  Bool, Bool-cases, Eq, List, Option, Option-cases, String, Text, [], arith, codes, false,
  if◌then◌else◌, inl, inr, insert, leb, lookup, lookup-insert, nat_eq, none, refl, some, string_eq,
  subst, true, ◌&&◌, ◌+◌, ◌==◌, ◌↔◌, ◌∷◌, ◌≡◌, ◌⊎◌,
}

-- `strings.ToLower` on ASCII text.
unfoldable pub to_lower : Text → Text
to_lower [] = []
to_lower (c ∷ cs) = (if leb b'A' c && leb c b'Z' then c + 32 else c) ∷ to_lower cs

abbrev pub text_beq : Text → Text → Bool
text_beq [] [] = true
text_beq [] (d ∷ ds) = false
text_beq (c ∷ cs) [] = false
text_beq (c ∷ cs) (d ∷ ds) = c == d && text_beq cs ds

pub text_beq→≡ : (s t : Text) → text_beq s t ≡ true → s ≡ t
text_beq→≡ [] [] h = refl
text_beq→≡ [] (d ∷ ds) h = cc
text_beq→≡ (c ∷ cs) [] h = cc
text_beq→≡ (c ∷ cs) (d ∷ ds) h = ground (arith, text_beq→≡ cs ds)

pub text_beq_refl : (s : Text) → text_beq s s ≡ true
text_beq_refl [] = refl
text_beq_refl (c ∷ cs) = ground (arith, text_beq_refl cs)

pub text_beq_iff : (s t : Text) → (text_beq s t ≡ true) ↔ (s ≡ t)
text_beq_iff s t = (text_beq→≡ s t, λ e. subst (λ u. text_beq s u ≡ true) e (text_beq_refl s))

instance abbrev pub text_eq : Eq Text
text_eq = record { beq = text_beq; beq_iff = text_beq_iff }

pub record RegistryCred : Type 0 where
  pub host : Text
  pub username : String
  pub token : String

-- `registryCred` under its host.
abbrev pub ByHost : Type 0
ByHost = List (Text × (String × String))

-- The loop of `Set`: a host that comes again is overwritten, an empty one is skipped.
unfoldable pub set_from : ByHost → List RegistryCred → ByHost
unfolding to_lower
set_from m [] = m
set_from m (c ∷ cs) =
    let host = to_lower c.host in
    set_from (if text_beq host [] then m else insert host (c.username, c.token) m) cs

-- `Set` replaces the whole store.
unfoldable pub set_registries : ByHost → List RegistryCred → ByHost
unfolding set_from
set_registries old creds = set_from [] creds

-- The `registry_auth` block of the agent's file, with what reading its token file answers.
pub data TokenRead : Type 0 where
  token_is unreadable : String → TokenRead

pub record LegacyAuth : Type 0 where
  pub host : Text
  pub username : String
  pub token_file : TokenRead

unfoldable pub legacy_registry_host : LegacyAuth → Text
unfolding to_lower
legacy_registry_host a = let h = to_lower a.host in if text_beq h [] then codes "ghcr.io" else h

-- The answer of `resolveRegistryAuth`: its source, with the user and the token or the error.
pub data Resolved : Type 0 where
  from_master from_legacy : String → String → Resolved
  legacy_fails : String → Resolved
  anonymous : Resolved

unfoldable pub legacy_cred : Option LegacyAuth → Text → Resolved
unfolding legacy_registry_host
legacy_cred none host = anonymous
legacy_cred (some a) host =
    if text_beq (legacy_registry_host a) host
    then elim a.token_file [ token_is t ↦ from_legacy a.username t | unreadable e ↦ legacy_fails e ]
    else anonymous

unfoldable pub resolve_registry_auth : ByHost → Option LegacyAuth → Text → Resolved
unfolding legacy_cred
resolve_registry_auth m legacy host = elim (lookup host m) [
  | some (u, t) ↦ from_master u t
  | none ↦ legacy_cred legacy host
]

-- One of the credentials is for `host`.
abbrev pub IsGiven : Text → String → String → List RegistryCred → Type 0
IsGiven host u t [] = ⊥
IsGiven host u t (c ∷ cs) =
    ((to_lower c.host ≡ host) × (c.username ≡ u) × (c.token ≡ t)) ⊎ IsGiven host u t cs

-- What may be answered for `host`.
abbrev pub Allowed : List RegistryCred → Option LegacyAuth → Text → Resolved → Type 0
Allowed creds legacy host (from_master u t) = IsGiven host u t creds
Allowed creds none host (from_legacy u t) = ⊥
Allowed creds (some a) host (from_legacy u t) =
    (legacy_registry_host a ≡ host) × (a.username ≡ u) × (a.token_file ≡ token_is t)
Allowed creds none host (legacy_fails e) = ⊥
Allowed creds (some a) host (legacy_fails e) =
    (legacy_registry_host a ≡ host) × (a.token_file ≡ unreadable e)
Allowed creds legacy host anonymous = Unit

set_from-IsGiven :
    (m : ByHost) (creds : List RegistryCred) (host : Text) (u t : String)
    → lookup host (set_from m creds) ≡ some (u, t)
    → (lookup host m ≡ some (u, t)) ⊎ IsGiven host u t creds
unfolding set_from
set_from-IsGiven m [] host u t h = inl h
set_from-IsGiven m (c ∷ cs) host u t h = elim (Bool-cases (text_beq (to_lower c.host) [])) [
  | inl empty ↦ elim (set_from-IsGiven m cs host u t (rw empty at h)) [
    | inl e ↦ inl e
    | inr g ↦ inr (inr g)
  ]
  | inr named ↦
      elim (set_from-IsGiven (insert (to_lower c.host) (c.username, c.token) m) cs host u t
        (rw named at h)) [
          | inr g ↦ inr (inr g)
          | inl e ↦ elim (Bool-cases (text_beq (to_lower c.host) host)) [
            | inl same ↦
                let pair =
                  rw (lookup-insert (to_lower c.host) host (c.username, c.token) m, same) at e in
                inr (inl (text_beq→≡ _ _ same, cc, cc))
            | inr other ↦
                inl (rw (lookup-insert (to_lower c.host) host (c.username, c.token) m, other) at e)
          ]
        ]
]

legacy_cred-Allowed :
    (creds : List RegistryCred) (legacy : Option LegacyAuth) (host : Text)
    → Allowed creds legacy host (legacy_cred legacy host)
unfolding legacy_cred
legacy_cred-Allowed creds none host = tt
legacy_cred-Allowed creds (some a) host =
    elim (Bool-cases (text_beq (legacy_registry_host a) host)) [
      | inr other ↦ rw (other, legacy_cred) tt
      | inl same ↦
          rw (same, legacy_cred)
            (elim a.token_file
                as (λ tf.
                  a.token_file ≡ tf
                  → Allowed creds (some a) host (elim tf [
                    | token_is t ↦ from_legacy a.username t
                    | unreadable e ↦ legacy_fails e
                  ])) [
                    | token_is t ↦ λ e. (text_beq→≡ _ _ same, refl, e)
                    | unreadable x ↦ λ e. (text_beq→≡ _ _ same, e)
                  ]
              refl)
    ]

-- A pull from `host` is given only a credential that is meant for that host: one that the master's
-- last full set has for it, or that of the agent's file if the file's host (`ghcr.io` where it names
-- none) is this one, with the token as it is read or the error of reading it. What an earlier set
-- held plays no part.
pub resolve_registry_auth-Allowed :
    (old : ByHost) (creds : List RegistryCred) (legacy : Option LegacyAuth) (host : Text)
    → Allowed creds legacy host (resolve_registry_auth (set_registries old creds) legacy host)
unfolding resolve_registry_auth set_registries
resolve_registry_auth-Allowed old creds legacy host =
    elim (Option-cases (lookup host (set_from [] creds))) [
      | inl e ↦ rw (e, resolve_registry_auth) (legacy_cred-Allowed creds legacy host)
      | inr ((u, t), e) ↦
          rw (e, resolve_registry_auth)
            (elim (set_from-IsGiven [] creds host u t e) [ inl k ↦ absurd (cc) | inr g ↦ g ])
    ]
