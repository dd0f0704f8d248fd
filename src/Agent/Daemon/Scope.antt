-- ===== src/Agent/Daemon/Scope.antt =====
-- The owner's pair (project, environment) of a server: `scopePair`, `serverScope`, `serverLogPath`.
-- The parts of a path are joined by `/`: the log directory and the server's id have no `.` or `..`
-- part, so `filepath.Join` has nothing to clean.
use birdman.Base.{
  Bool, Bool-cases, List, Option, String, Text, [], arith, codes, concat, contains, false,
  if◌then◌else◌, inl, inr, leb, length, lookup, nat_eq, none, not, refl, some, string_eq, true, ℕ,
  ◌&&◌, ◌<◌, ◌==◌, ◌||◌, ◌∷◌, ◌≡◌, ◌≤◌, ◌⊎◌,
}

abbrev pub is_alnum : ℕ → Bool
is_alnum c = (leb b'a' c && leb c b'z') || (leb b'0' c && leb c b'9')

abbrev pub is_label_tail : Text → Bool
is_label_tail [] = true
is_label_tail (c ∷ cs) = (is_alnum c || c == b'-') && is_label_tail cs

-- `scopeLabelRe`: `^[a-z0-9][a-z0-9-]{0,31}$`.
unfoldable pub is_label : Text → Bool
is_label [] = false
is_label (c ∷ cs) = is_alnum c && leb (length cs) 31 && is_label_tail cs

unfoldable pub scope_pair : String → String → Option (String × String)
unfolding is_label
scope_pair project env =
    if not (is_label (codes project)) || not (is_label (codes env))
    then none
    else some (project, env)

-- A key that is missing reads as the empty text.
abbrev pub read_env : String → List (String × String) → String
read_env k env = elim (lookup k env) [ none ↦ "" | some v ↦ v ]

unfoldable pub server_scope : List (String × String) → String × String
unfolding scope_pair
server_scope env = elim (scope_pair (read_env "BIRDMAN_PROJECT" env) (read_env "BIRDMAN_ENV" env)) [
  | none ↦ ("", "")
  | some pair ↦ pair
]

-- `mkdir_ok` is whether the directory could be made.
unfoldable pub server_log_path : Bool → String → String → List (String × String) → Bool → String
unfolding scope_pair concat
server_log_path scope_dirs log_dir id env mkdir_ok =
    let flat = concat (log_dir ∷ "/" ∷ id ∷ ".log" ∷ []) in
    if not scope_dirs
    then flat
    else elim (scope_pair (read_env "BIRDMAN_PROJECT" env) (read_env "BIRDMAN_ENV" env)) [
      | none ↦ flat
      | some (project, name) ↦
          if mkdir_ok
          then concat (log_dir ∷ "/" ∷ project ∷ "/" ∷ name ∷ "/" ∷ id ∷ ".log" ∷ [])
          else flat
    ]

-- A name of one directory that is not hidden and climbs nowhere.
pub record IsPlain (t : Text) : Type 0 where
  pub no_slash : contains b'/' t ≡ false
  pub no_dot : contains b'.' t ≡ false
  pub sized : (0 < length t) × (length t ≤ 32)

label_tail-plain :
    (t : Text) → is_label_tail t ≡ true → (contains b'/' t ≡ false) × (contains b'.' t ≡ false)
label_tail-plain [] h = (refl, refl)
label_tail-plain (c ∷ cs) h = ground (arith, label_tail-plain cs)

is_label-IsPlain : (t : Text) → is_label t ≡ true → IsPlain t
unfolding is_label
is_label-IsPlain [] h = cc
is_label-IsPlain (c ∷ cs) h = ground (arith, label_tail-plain cs)

-- What `serverScope` answers: nothing at all, or both halves as the environment gives them.
pub data Scoped (env : List (String × String)) : String × String → Type 0 where
  unscoped : Scoped env ("", "")
  scoped :
      (project name : String)
      → read_env "BIRDMAN_PROJECT" env ≡ project
      → read_env "BIRDMAN_ENV" env ≡ name
      → IsPlain (codes project)
      → IsPlain (codes name)
      → Scoped env (project, name)

scope_pair-cases :
    (project name : String)
    → (scope_pair project name ≡ none)
      ⊎ ((scope_pair project name ≡ some (project, name))
          × IsPlain (codes project)
          × IsPlain (codes name))
unfolding scope_pair
scope_pair-cases project name = elim (Bool-cases (is_label (codes project))) [
  | inr bad ↦ inl (rw bad refl)
  | inl good ↦ elim (Bool-cases (is_label (codes name))) [
    | inr bad ↦ inl (rw good (rw bad refl))
    | inl fine ↦ inr (rw good (rw fine refl), is_label-IsPlain _ good, is_label-IsPlain _ fine)
  ]
]

-- The pair of a server is empty in both halves, or both halves are those of its environment and
-- each is a plain name of 1 to 32 characters, with no slash and no dot. There is no half pair.
pub server_scope-Scoped : (env : List (String × String)) → Scoped env (server_scope env)
unfolding server_scope
server_scope-Scoped env =
    elim (scope_pair-cases (read_env "BIRDMAN_PROJECT" env) (read_env "BIRDMAN_ENV" env)) [
      | inl e ↦ rw (e, server_scope) unscoped
      | inr (e, p, q) ↦ rw (e, server_scope) (scoped _ _ refl refl p q)
    ]

-- The log file of a server lies right in the log directory, or two directories below it that are
-- named by its pair, and the second only where the option asks for it and the directory was made.
pub server_log_path_cases :
    (scope_dirs : Bool) (log_dir id : String) (env : List (String × String)) (mkdir_ok : Bool)
    → (server_log_path scope_dirs log_dir id env mkdir_ok
        ≡ concat (log_dir ∷ "/" ∷ id ∷ ".log" ∷ []))
      ⊎ ((server_log_path scope_dirs log_dir id env mkdir_ok
            ≡ concat (
                log_dir
                ∷ "/"
                ∷ (server_scope env).0
                ∷ "/"
                ∷ (server_scope env).1
                ∷ "/"
                ∷ id
                ∷ ".log"
                ∷ []))
          × (scope_dirs ≡ true)
          × (mkdir_ok ≡ true)
          × IsPlain (codes (server_scope env).0)
          × IsPlain (codes (server_scope env).1))
unfolding server_log_path server_scope
server_log_path_cases false log_dir id env mkdir_ok = inl refl
server_log_path_cases true log_dir id env mkdir_ok =
    elim (scope_pair-cases (read_env "BIRDMAN_PROJECT" env) (read_env "BIRDMAN_ENV" env)) [
      | inl e ↦ inl (rw (e, server_log_path) refl)
      | inr (e, p, q) ↦ made mkdir_ok e p q
    ]
  where
    made :
        (ok : Bool)
        → scope_pair (read_env "BIRDMAN_PROJECT" env) (read_env "BIRDMAN_ENV" env)
          ≡ some (read_env "BIRDMAN_PROJECT" env, read_env "BIRDMAN_ENV" env)
        → IsPlain (codes (read_env "BIRDMAN_PROJECT" env))
        → IsPlain (codes (read_env "BIRDMAN_ENV" env))
        → (server_log_path true log_dir id env ok ≡ concat (log_dir ∷ "/" ∷ id ∷ ".log" ∷ []))
          ⊎ ((server_log_path true log_dir id env ok
                ≡ concat (
                    log_dir
                    ∷ "/"
                    ∷ (server_scope env).0
                    ∷ "/"
                    ∷ (server_scope env).1
                    ∷ "/"
                    ∷ id
                    ∷ ".log"
                    ∷ []))
              × (true ≡ true)
              × (ok ≡ true)
              × IsPlain (codes (server_scope env).0)
              × IsPlain (codes (server_scope env).1))
    made false e p q = inl (rw (e, server_log_path) refl)
    made true e p q = inr (rw (e, server_log_path, server_scope) (refl, refl, refl, p, q))
