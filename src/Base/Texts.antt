-- ===== src/Base/Texts.antt =====
-- Text as the list of its code points, with what the source uses of Go's `strings` and `strconv`.
use Prim.Native.Nat.{ℕ, zero, suc, ◌+◌, ◌-◌, ◌*◌, ◌/◌, ◌%◌, ◌^◌, ◌≤◌, ◌<◌}
use Prim.Native.String.{String}
use Prim.Native.Char.{code}
use mathlib.Core.Path.{◌≡◌, refl, ap, ap₂, sym, ◌∙◌}
use mathlib.Core.Logic.{inl, inr}
use mathlib.Core.Bool.{Bool, true, false, ◌&&◌, ◌||◌}
use mathlib.Core.List.{List, [], ◌∷◌, ◌++◌}
use mathlib.Core.Option.{Option, none, some}
use native.Mathlib.Omega.{arith}
use birdman.Base.Tests.{Bool-cases, if◌then◌else◌, leb, ltb, ◌==◌}
use birdman.Base.Int.{negsuc, pos, ℤ}
use birdman.Base.Lists.{All, All-append}

abbrev pub Text : Type 0
Text = List ℕ

abbrev pub codes : String → Text
codes String.[] = []
codes (String.◌∷◌ c s) = code c ∷ codes s

-- `unicode.IsSpace`.
unfoldable pub is_space : ℕ → Bool
is_space c =
    (leb 9 c && leb c 13)
    || c == 32
    || c == 0x85
    || c == 0xA0
    || c == 0x1680
    || (leb 0x2000 c && leb c 0x200A)
    || c == 0x2028
    || c == 0x2029
    || c == 0x202F
    || c == 0x205F
    || c == 0x3000

unfoldable pub trim_left : Text → Text
unfolding is_space
trim_left [] = []
trim_left (c ∷ cs) = let rest = trim_left cs in if is_space c then rest else c ∷ cs

unfoldable pub trim_right : Text → Text
unfolding is_space
trim_right [] = []
trim_right (c ∷ cs) =
    let rest = trim_right cs in
    elim rest [ [] ↦ if is_space c then [] else c ∷ [] | d ∷ ds ↦ c ∷ d ∷ ds ]

-- `strings.TrimSpace`.
unfoldable pub trim_space : Text → Text
unfolding trim_left trim_right
trim_space s = trim_right (trim_left s)

-- `strings.TrimPrefix` for a prefix of one character.
unfoldable pub trim_prefix : ℕ → Text → Text
trim_prefix p [] = []
trim_prefix p (c ∷ cs) = if c == p then cs else c ∷ cs

abbrev cons_head : ℕ → List Text → List Text
cons_head c [] = (c ∷ []) ∷ []
cons_head c (s ∷ ss) = (c ∷ s) ∷ ss

-- `strings.Split` at a character.
unfoldable pub split : ℕ → Text → List Text
split sep [] = [] ∷ []
split sep (c ∷ cs) = let rest = split sep cs in if c == sep then [] ∷ rest else cons_head c rest

-- `strings.SplitN` with `cuts + 1` parts at most.
unfoldable pub split_n : ℕ → ℕ → Text → List Text
split_n sep zero cs = cs ∷ []
split_n sep (suc cuts) [] = [] ∷ []
split_n sep (suc cuts) (c ∷ cs) =
    let here = split_n sep cuts cs in
    let later = split_n sep (suc cuts) cs in if c == sep then [] ∷ here else cons_head c later

-- The first result of `strings.Cut`.
unfoldable pub before : ℕ → Text → Text
before sep [] = []
before sep (c ∷ cs) = let rest = before sep cs in if c == sep then [] else c ∷ rest

abbrev pub is_digit : ℕ → Bool
is_digit c = leb 48 c && leb c 57

unfoldable pub digits_value : ℕ → Text → Option ℕ
digits_value acc [] = some acc
digits_value acc (c ∷ cs) =
    let rest = digits_value (acc * 10 + (c - 48)) cs in if is_digit c then rest else none

abbrev int_limit : ℕ
int_limit = 2 ^ 63

abbrev natural : Text → Option ℕ
natural [] = none
natural (c ∷ cs) = digits_value 0 (c ∷ cs)

abbrev positive : Option ℕ → Option ℤ
positive none = none
positive (some n) = if ltb n int_limit then some (pos n) else none

abbrev negative : Option ℕ → Option ℤ
negative none = none
negative (some zero) = some (pos 0)
negative (some (suc n)) = if ltb n int_limit then some (negsuc n) else none

-- `strconv.Atoi` on a 64-bit machine.
unfoldable pub atoi : Text → Option ℤ
unfolding digits_value
atoi [] = none
atoi (c ∷ cs) =
    if c == b'-'
    then negative (natural cs)
    else if c == b'+'
    then positive (natural cs)
    else positive (natural (c ∷ cs))

unfoldable pub itoa_fuel : ℕ → ℕ → Text
itoa_fuel zero n = []
itoa_fuel (suc f) n =
    let front = itoa_fuel f (n / 10) in
    if ltb n 10 then (48 + n) ∷ [] else front ++ (48 + n % 10) ∷ []

-- `strconv.Itoa` of a number that is not negative; every round takes a digit, so n + 1 are enough.
unfoldable pub itoa : ℕ → Text
unfolding itoa_fuel
itoa n = itoa_fuel (suc n) n

-- The number that digits stand for.
value : ℕ → Text → ℕ
value acc [] = acc
value acc (c ∷ cs) = value (acc * 10 + (c - 48)) cs

value-append :
    (acc : ℕ) (xs : Text) (d : ℕ) → value acc (xs ++ d ∷ []) ≡ value acc xs * 10 + (d - 48)
unfolding value
value-append acc [] d = refl
value-append acc (x ∷ xs) d = value-append (acc * 10 + (x - 48)) xs d

value-itoa_fuel : (f n : ℕ) → n < f → value 0 (itoa_fuel f n) ≡ n
unfolding itoa_fuel
value-itoa_fuel zero n h = absurd (omega arith)
value-itoa_fuel (suc f) n h = elim (Bool-cases (ltb n 10)) [
  | inl small ↦ rw (small, itoa_fuel) (unfold value in omega arith)
  | inr large ↦
      let big : 10 ≤ n = ground arith in
      rw (large, itoa_fuel)
        (omega (
          arith,
          value-append 0 (itoa_fuel f (n / 10)) (48 + n % 10),
          value-itoa_fuel f (n / 10) (omega arith),
        ))
]

pub itoa-injective : (m n : ℕ) → itoa m ≡ itoa n → m ≡ n
unfolding itoa
itoa-injective m n e =
    sym (value-itoa_fuel (suc m) m (omega arith))
    ∙ ap (value 0) e
    ∙ value-itoa_fuel (suc n) n (omega arith)

abbrev pub AreDigits : Text → Type 0
AreDigits = All (λ c. is_digit c ≡ true)

itoa_fuel-AreDigits : (f n : ℕ) → AreDigits (itoa_fuel f n)
unfolding itoa_fuel
itoa_fuel-AreDigits zero n = tt
itoa_fuel-AreDigits (suc f) n = elim (Bool-cases (ltb n 10)) [
  | inl small ↦ rw (small, itoa_fuel) (ground arith, tt)
  | inr large ↦
      rw (large, itoa_fuel)
        (All-append (λ c. is_digit c ≡ true) (itoa_fuel f (n / 10)) ((48 + n % 10) ∷ [])
          (itoa_fuel-AreDigits f (n / 10)) (ground arith, tt))
]

pub itoa-AreDigits : (n : ℕ) → AreDigits (itoa n)
unfolding itoa
itoa-AreDigits n = itoa_fuel-AreDigits (suc n) n

-- A text that is empty or goes on with no digit.
abbrev pub IsBreak : Text → Type 0
IsBreak [] = Unit
IsBreak (c ∷ cs) = is_digit c ≡ false

-- A text splits in one way into digits and what follows them.
digits-append_injective :
    (xs ys r s : Text)
    → AreDigits xs
    → AreDigits ys
    → IsBreak r
    → IsBreak s
    → xs ++ r ≡ ys ++ s
    → (xs ≡ ys) × (r ≡ s)
digits-append_injective [] [] r s dx dy br bs e = (refl, e)
digits-append_injective [] (y ∷ ys) [] s dx dy br bs e = absurd (cc)
digits-append_injective [] (y ∷ ys) (c ∷ r) s dx dy br bs e = absurd (ground (arith, dy.0))
digits-append_injective (x ∷ xs) [] r [] dx dy br bs e = absurd (cc)
digits-append_injective (x ∷ xs) [] r (c ∷ s) dx dy br bs e = absurd (ground (arith, dx.0))
digits-append_injective (x ∷ xs) (y ∷ ys) r s dx dy br bs e =
    let rest : xs ++ r ≡ ys ++ s = cc in
    let (p, q) = digits-append_injective xs ys r s dx.1 dy.1 br bs rest in (ap₂ ◌∷◌ (cc) p, q)

-- The decimal print of a number, followed by no digit, determines the number and what follows.
pub itoa-append_injective :
    (m n : ℕ) (r s : Text) → IsBreak r → IsBreak s → itoa m ++ r ≡ itoa n ++ s → (m ≡ n) × (r ≡ s)
itoa-append_injective m n r s br bs e =
    let (p, q) =
      digits-append_injective (itoa m) (itoa n) r s (itoa-AreDigits m) (itoa-AreDigits n) br bs e in
    (itoa-injective m n p, q)
