-- ===== src/Matchmaker/Compat.antt =====
-- Which client versions may play on which server versions (master/internal/matchmaker/compat.go).
-- Go's `int` has 64 bits; a parsed number is not negative, so it is kept as a natural number.
pub mod Buckets
pub mod Rules
mod Runs
use birdman.Base.{
  Bool, List, Option, Text, [], atoi, before, false, get_elem?, if◌then◌else◌, itoa, negsuc, none,
  not, pos, some, split, split_n, trim_prefix, trim_space, true, ℕ, ℤ, ◌&&◌, ◌++◌, ◌+◌, ◌==◌, ◌||◌,
  ◌∷◌,
}

pub record Semver : Type 0 where
  pub major : ℕ
  pub minor : ℕ
  pub patch : ℕ

-- `Atoi`, with the test for a sign.
abbrev non_negative : Option ℤ → Option ℕ
non_negative none = none
non_negative (some (pos n)) = some n
non_negative (some (negsuc n)) = none

-- The local function `num` of `parseSemver`: suffixes behind "-" and "+" are dropped.
unfoldable pub num : Text → Option ℕ
num raw = non_negative (atoi (before b'+' (before b'-' raw)))

infixl 5 ◌>>=◌
abbrev ◌>>=◌ {ℓ κ} : {A : Type ℓ} {B : Type κ} → Option A → (A → Option B) → Option B
none >>= f = none
some a >>= f = f a

abbrev semver_of : List Text → Option Semver
semver_of [] = none
semver_of (a ∷ []) = none
semver_of (a ∷ b ∷ []) = do
  major ← num a
  minor ← num b
  some (record { major = major; minor = minor; patch = 0 })
semver_of (a ∷ b ∷ c ∷ rest) = do
  major ← num a
  minor ← num b
  patch ← num c
  some (record { major = major; minor = minor; patch = patch })

unfoldable pub parse_semver : Text → Option Semver
parse_semver v = semver_of (split_n b'.' 2 (trim_prefix b'v' (trim_space v)))

-- `strconv.Itoa(sv.major) + "." + strconv.Itoa(sv.minor)`.
abbrev pub major_minor_of : Semver → Text
major_minor_of sv = itoa sv.major ++ b'.' ∷ itoa sv.minor

unfoldable pub major_minor : Text → Option Text
major_minor v = do sv ← parse_semver v; some (major_minor_of sv)

pub record Pattern : Type 0 where
  pub major : ℕ
  pub minor : ℕ
  pub patch : ℕ
  pub any_minor : Bool
  pub any_patch : Bool

-- The local function `wild` of `parsePattern`.
unfoldable pub wild : Text → Bool
wild (c ∷ []) = c == b'x' || c == b'X' || c == b'*'
wild _ = false

abbrev minor_of : Text → Option (ℕ × Bool)
minor_of b =
    if wild b
    then some (0, true)
    else elim (non_negative (atoi b)) [ none ↦ none | some n ↦ some (n, false) ]

-- A literal patch is refused under a wildcard minor.
abbrev patch_of : Bool → Text → Option (ℕ × Bool)
patch_of any_minor c =
    if wild c
    then some (0, true)
    else if any_minor
    then none
    else elim (non_negative (atoi c)) [ none ↦ none | some n ↦ some (n, false) ]

abbrev major_of : Text → Option ℕ
major_of [] = none
major_of (c ∷ cs) = if wild (c ∷ cs) then none else non_negative (atoi (c ∷ cs))

abbrev pattern_of : List Text → Option Pattern
pattern_of [] = none
pattern_of (a ∷ []) = do
  major ← major_of a
  some (record { major = major; minor = 0; patch = 0; any_minor = true; any_patch = true })
pattern_of (a ∷ b ∷ []) = do
  major ← major_of a
  m ← minor_of b
  some (record { major = major; minor = m.0; patch = 0; any_minor = m.1; any_patch = true })
pattern_of (a ∷ b ∷ c ∷ []) = do
  major ← major_of a
  m ← minor_of b
  p ← patch_of m.1 c
  some (record { major = major; minor = m.0; patch = p.0; any_minor = m.1; any_patch = p.1 })
pattern_of (a ∷ b ∷ c ∷ d ∷ rest) = none

unfoldable pub parse_pattern : Text → Option Pattern
unfolding wild
parse_pattern raw = pattern_of (split b'.' (trim_prefix b'v' (trim_space raw)))

unfoldable pub matches : Pattern → Semver → Bool
matches p sv =
    if not (sv.major == p.major)
    then false
    else if not p.any_minor && not (sv.minor == p.minor)
    then false
    else if not p.any_patch && not (sv.patch == p.patch)
    then false
    else true

-- A row of `compat.overrides`.
pub record Override : Type 0 where
  pub client : Text
  pub servers : List Text

pub record CompiledOverride : Type 0 where
  pub client : Pattern
  pub servers : List Pattern

-- `Compat`, by its one field; the nil pointer is the empty table.
abbrev pub Compat : Type 0
Compat = List CompiledOverride

unfoldable pub parse_patterns : List Text → Option (List Pattern)
parse_patterns [] = some []
parse_patterns (s ∷ ss) =
    let rest = parse_patterns ss in do p ← parse_pattern s; ps ← rest; some (p ∷ ps)

unfoldable pub new_compat : List Override → Option Compat
unfolding parse_patterns
new_compat [] = some []
new_compat (o ∷ os) =
    let rest = new_compat os in
    do
      client ← parse_pattern o.client
      servers ← elim o.servers [ [] ↦ none | s ∷ ss ↦ parse_patterns (s ∷ ss) ]
      cs ← rest
      some (record { client = client; servers = servers } ∷ cs)

-- The loop of `clientOverrides` from the index `i`.
unfoldable pub overrides_from : ℕ → Compat → Semver → List ℕ
unfolding matches
overrides_from i [] sv = []
overrides_from i (o ∷ os) sv =
    let rest = overrides_from (i + 1) os sv in if matches o.client sv then i ∷ rest else rest

unfoldable pub client_overrides : Compat → Semver → List ℕ
unfolding overrides_from
client_overrides c sv = overrides_from 0 c sv

-- "+o" and the index, for each of them.
unfoldable pub suffix : List ℕ → Text
suffix [] = []
suffix (i ∷ is) = b'+' ∷ b'o' ∷ itoa i ++ suffix is

unfoldable pub bucket_of : Compat → Text → Option Text
unfolding suffix
bucket_of c client_version = do
  sv ← parse_semver client_version
  some (itoa sv.major ++ (b'.' ∷ itoa sv.minor ++ suffix (client_overrides c sv)))

abbrev pub any_b {ℓ} : {A : Type ℓ} → (A → Bool) → List A → Bool
any_b p [] = false
any_b p (x ∷ xs) = p x || any_b p xs

abbrev servers_of : Option CompiledOverride → List Pattern
servers_of none = []
servers_of (some o) = o.servers

abbrev servers_at : Compat → ℕ → List Pattern
servers_at c i = servers_of (get_elem? c i)

-- `Compatible` on two parsed versions.
unfoldable pub compatible_versions : Compat → Semver → Semver → Bool
compatible_versions c cv sv =
    if cv.major == sv.major && cv.minor == sv.minor
    then true
    else any_b (λ i. any_b (λ p. matches p sv) (servers_at c i)) (client_overrides c cv)

unfoldable pub compatible : Compat → Text → Text → Bool
unfolding compatible_versions
compatible c client_version server_semver = elim (parse_semver client_version) [
  | none ↦ false
  | some cv ↦ elim (parse_semver server_semver) [
    | none ↦ false
    | some sv ↦ compatible_versions c cv sv
  ]
]
