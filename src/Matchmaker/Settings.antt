-- ===== src/Matchmaker/Settings.antt =====
-- The matchmaker's settings (`Config`, `retention` and `compatibleWithAny` of
-- master/internal/matchmaker/matchmaker.go). Durations are nanoseconds; the secret and the policies
-- stay as they are and are left out.
mod Runs
use birdman.Base.{
  Bool, Bool-cases, List, Option, Text, [], arith, false, if◌then◌else◌, inl, inr, ltb, negsuc,
  none, pos, refl, some, ℕ, ℤ, ◌*◌, ◌<◌, ◌==◌, ◌||◌, ◌∷◌, ◌≡◌,
}
use birdman.Matchmaker.Compat.{Compat, compatible}

abbrev millisecond : ℕ
millisecond = 1000000

abbrev second : ℕ
second = 1000 * millisecond

pub record Config : Type 0 where
  pub tick : ℤ
  pub widen_after : ℤ
  pub ticket_ttl : ℤ
  pub join_token_ttl : ℤ
  pub compat : Option Compat

abbrev or_default : ℤ → ℕ → ℤ
or_default (pos n) d = if n == 0 then pos d else pos n
or_default (negsuc n) d = pos d

unfoldable pub with_defaults : Config → Config
with_defaults c = record {
  tick = or_default c.tick (500 * millisecond);
  widen_after = or_default c.widen_after (30 * second);
  ticket_ttl = or_default c.ticket_ttl (120 * second);
  join_token_ttl = or_default c.join_token_ttl (60 * second);
  compat = elim c.compat [ none ↦ some [] | some k ↦ some k ];
}

-- The retention for a `TicketTTL` that is not negative.
unfoldable pub retention : ℕ → ℕ
retention ticket_ttl = if ltb (300 * second) (2 * ticket_ttl) then 2 * ticket_ttl else 300 * second

unfoldable pub compatible_with_any : Compat → Text → List Text → Bool
compatible_with_any c client_version [] = false
compatible_with_any c client_version (semver ∷ semvers) =
    compatible c client_version semver || compatible_with_any c client_version semvers

abbrev IsPositive : ℤ → Type 0
IsPositive i = (n : ℕ) × (i ≡ pos n) × (0 < n)

or_default-IsPositive : (i : ℤ) (d : ℕ) → 0 < d → IsPositive (or_default i d)
or_default-IsPositive (negsuc n) d h = (d, refl, h)
or_default-IsPositive (pos n) d h = elim (Bool-cases (n == 0)) [
  | inl e ↦ rw e (d, refl, h)
  | inr e ↦ rw e (n, refl, ground (arith, e))
]

-- Whatever is configured, every duration that the matchmaker then works with is positive, so no
-- division by the widening period fails, and there is a table of overrides.
pub with_defaults-IsPositive :
    (c : Config)
    → IsPositive (with_defaults c).tick
      × IsPositive (with_defaults c).widen_after
      × IsPositive (with_defaults c).ticket_ttl
      × IsPositive (with_defaults c).join_token_ttl
      × ((k : Compat) × ((with_defaults c).compat ≡ some k))
unfolding with_defaults
with_defaults-IsPositive c = (
  or_default-IsPositive c.tick (500 * millisecond) (omega arith),
  or_default-IsPositive c.widen_after (30 * second) (omega arith),
  or_default-IsPositive c.ticket_ttl (120 * second) (omega arith),
  or_default-IsPositive c.join_token_ttl (60 * second) (omega arith),
  table c.compat,
)
  where
    table :
        (o : Option Compat)
        → (k : Compat) × ((elim o [ none ↦ some [] | some k ↦ some k ]) ≡ some k)
    table none = ([], refl)
    table (some k) = (k, refl)
