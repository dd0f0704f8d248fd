-- ===== src/Reconcile/ImageCleanup/Grouping.antt =====
-- The groups of a pass, and the versions that they come from.
use Prim.Native.String.{String, ◌++◌ as str_append}
use Prim.Native.String.append.{nil, cons}
use Prim.Native.Char.{Char, code}
use birdman.Base.{
  All, All-append, Bool, Bool-cases, false, ◌==◌, ◌||◌, List, [], ap, inl, inr, refl, string_eq,
  sym, ◌∙◌, ◌∷◌, ◌≡◌, ◌≢◌, ◌⊎◌, length, ◌<◌, length-append, arith,
}
use birdman.Reconcile.ImageCleanup.{DisabledVersion, RefGroup, group_loop, key, place}

abbrev head_or : Char → String → Char
head_or c String.[] = c
head_or c (String.◌∷◌ d s) = d

abbrev tail_of : String → String
tail_of String.[] = ""
tail_of (String.◌∷◌ d s) = s

-- The byte 0, which the source writes between the parts of a key.
abbrev pub nul : Char
nul = "\0"

abbrev pub has_nul : String → Bool
has_nul String.[] = false
has_nul (String.◌∷◌ c s) = code c == 0 || has_nul s

abbrev pub NoNul : String → Type 0
NoNul s = has_nul s ≡ false

not_nul : (c : Char) (s : String) → NoNul (String.◌∷◌ c s) → c ≢ nul
not_nul c s h e = let zero_code : code c ≡ 0 = ap code e in absurd (ground (arith, h, zero_code))

rest_plain : (c : Char) (s : String) → NoNul (String.◌∷◌ c s) → NoNul s
rest_plain c s h = ground (arith, h)

separated : (s : String) → str_append "\0" s ≡ String.◌∷◌ nul s
separated s = cons nul "" s ∙ ap (λ t. String.◌∷◌ nul t) (nil s)

cut :
    (a b s t : String)
    → NoNul a
    → NoNul b
    → str_append a (str_append "\0" s) ≡ str_append b (str_append "\0" t)
    → (a ≡ b) × (s ≡ t)
cut String.[] String.[] s t h k e =
    let e' : String.◌∷◌ nul s ≡ String.◌∷◌ nul t =
      sym (nil (str_append "\0" s) ∙ separated s) ∙ e ∙ (nil (str_append "\0" t) ∙ separated t) in
    (refl, ap tail_of e')
cut String.[] (String.◌∷◌ d b) s t h k e =
    let e' : String.◌∷◌ nul s ≡ String.◌∷◌ d (str_append b (str_append "\0" t)) =
      sym (nil (str_append "\0" s) ∙ separated s) ∙ e ∙ cons d b (str_append "\0" t) in
    absurd (not_nul d b k (sym (ap (head_or nul) e')))
cut (String.◌∷◌ c a) String.[] s t h k e =
    let e' : String.◌∷◌ c (str_append a (str_append "\0" s)) ≡ String.◌∷◌ nul t =
      sym (cons c a (str_append "\0" s)) ∙ e ∙ (nil (str_append "\0" t) ∙ separated t) in
    absurd (not_nul c a h (ap (head_or nul) e'))
cut (String.◌∷◌ c a) (String.◌∷◌ d b) s t h k e =
    let e' : String.◌∷◌ c (str_append a (str_append "\0" s))
        ≡ String.◌∷◌ d (str_append b (str_append "\0" t)) =
      sym (cons c a (str_append "\0" s)) ∙ e ∙ cons d b (str_append "\0" t) in
    let (same, rest) = cut a b s t (rest_plain c a h) (rest_plain d b k) (ap tail_of e') in
    let first : c ≡ d = ap (head_or nul) e' in
    (ap (λ x. String.◌∷◌ x a) first ∙ ap (λ z. String.◌∷◌ d z) same, rest)

-- Text from the database, which holds no byte 0.
abbrev pub IsPlain : DisabledVersion → Type 0
IsPlain d = NoNul d.project_id × NoNul d.env

abbrev pub IsAmong : DisabledVersion → List DisabledVersion → Type 0
IsAmong d [] = ⊥
IsAmong d (e ∷ es) = (e ≡ d) ⊎ IsAmong d es

-- The version `id` is one of `ds`, of the environment and with the ref.
pub record From (ds : List DisabledVersion) (project env ref id : String) : Type 0 where
  pub version : DisabledVersion
  pub among : IsAmong version ds
  pub named : version.version_id ≡ id
  pub of_project : version.project_id ≡ project
  pub of_env : version.env ≡ env
  pub of_ref : version.image_ref ≡ ref

pub record IsWhole (ds : List DisabledVersion) (g : RefGroup) : Type 0 where
  pub some_version : 0 < length g.version_ids
  pub from : All (From ds g.project_id g.env g.image_ref) g.version_ids
  pub plain : NoNul g.project_id × NoNul g.env

key_injective :
    (p q e f r s : String)
    → NoNul p × NoNul e
    → NoNul q × NoNul f
    → key p e r ≡ key q f s
    → (p ≡ q) × (e ≡ f) × (r ≡ s)
key_injective p q e f r s h k same =
    let (project, more) = cut p q _ _ h.0 k.0 same in
    let (env, ref) = cut e f _ _ h.1 k.1 more in (project, env, ref)

place-IsWhole :
    (ds : List DisabledVersion) (d : DisabledVersion) (gs : List RefGroup)
    → IsAmong d ds
    → IsPlain d
    → All (IsWhole ds) gs
    → All (IsWhole ds) (place d gs)
unfolding place
place-IsWhole ds d [] among plain h = (
  record {
    some_version = omega arith;
    from = (
      record {
        version = d;
        among = among;
        named = refl;
        of_project = refl;
        of_env = refl;
        of_ref = refl;
      },
      tt,
    );
    plain = plain;
  },
  tt,
)
place-IsWhole ds d (g ∷ gs) among plain h =
    elim (Bool-cases
      (string_eq.beq (key g.project_id g.env g.image_ref) (key d.project_id d.env d.image_ref))) [
        | inr other ↦ rw (other, place) (h.0, place-IsWhole ds d gs among plain h.1)
        | inl same ↦
            let (project, env, ref) =
              key_injective g.project_id d.project_id g.env d.env g.image_ref d.image_ref h.0.plain
                plain ((string_eq.beq_iff _ _).0 same) in
            let one : From ds g.project_id g.env g.image_ref d.version_id = record {
              version = d;
              among = among;
              named = refl;
              of_project = sym project;
              of_env = sym env;
              of_ref = sym ref;
            } in
            let longer = length-append g.version_ids (d.version_id ∷ []) in
            rw (same, place)
              (
                record {
                  some_version = omega (arith, longer);
                  from =
                      All-append (From ds g.project_id g.env g.image_ref) g.version_ids
                        (d.version_id ∷ []) h.0.from (one, tt);
                  plain = h.0.plain;
                },
                h.1,
              )
      ]

-- Every group holds versions of the pass, all of its environment and its ref.
pub group_loop-IsWhole :
    (ds rest : List DisabledVersion) (out : List RefGroup)
    → ((d : DisabledVersion) → IsAmong d rest → IsAmong d ds)
    → All IsPlain rest
    → All (IsWhole ds) out
    → All (IsWhole ds) (group_loop out rest)
unfolding group_loop
group_loop-IsWhole ds [] out known plain h = h
group_loop-IsWhole ds (d ∷ rest) out known plain h =
    elim (Bool-cases (string_eq.beq d.image_ref "")) [
      | inl bare ↦
          rw (bare, group_loop) (group_loop-IsWhole ds rest out (λ e k. known e (inr k)) plain.1 h)
      | inr named ↦
          rw (named, group_loop)
            (group_loop-IsWhole ds rest (place d out) (λ e k. known e (inr k)) plain.1
              (place-IsWhole ds d out (known d (inl refl)) plain.0 h))
    ]
