-- ===== src/Base/Int.antt =====
-- Signed numbers as the source's `int`: their sign and their order.
use Prim.Native.Nat.{ℕ}
use mathlib.Core.Path.{◌≡◌, refl}
use mathlib.Core.Bool.{Bool, true, false}
use native.Mathlib.Omega.{arith}
use birdman.Base.Tests.{ltb}

-- `negsuc n` is -(n + 1).
pub data ℤ : Type 0 where
  pos : ℕ → ℤ
  negsuc : ℕ → ℤ

-- Go's `<` on signed integers.
infix 50 ◌≤ℤ◌
abbrev pub ltb_ℤ : ℤ → ℤ → Bool
ltb_ℤ (pos a) (pos b) = ltb a b
ltb_ℤ (pos a) (negsuc b) = false
ltb_ℤ (negsuc a) (pos b) = true
ltb_ℤ (negsuc a) (negsuc b) = ltb b a

abbrev pub ◌≤ℤ◌ : ℤ → ℤ → Type 0
a ≤ℤ b = ltb_ℤ b a ≡ false

pub ≤ℤ_refl : (a : ℤ) → a ≤ℤ a
≤ℤ_refl (pos a) = ground arith
≤ℤ_refl (negsuc a) = ground arith

pub ≤ℤ_trans : (a b c : ℤ) → a ≤ℤ b → b ≤ℤ c → a ≤ℤ c
≤ℤ_trans (pos a) (pos b) (pos c) h k = ground arith
≤ℤ_trans (pos a) (pos b) (negsuc c) h k = cc
≤ℤ_trans (pos a) (negsuc b) c h k = cc
≤ℤ_trans (negsuc a) (pos b) (pos c) h k = refl
≤ℤ_trans (negsuc a) (pos b) (negsuc c) h k = cc
≤ℤ_trans (negsuc a) (negsuc b) (pos c) h k = refl
≤ℤ_trans (negsuc a) (negsuc b) (negsuc c) h k = ground arith

pub ltb→≤ℤ : (a b : ℤ) → ltb_ℤ a b ≡ true → a ≤ℤ b
ltb→≤ℤ (pos a) (pos b) h = ground arith
ltb→≤ℤ (pos a) (negsuc b) h = cc
ltb→≤ℤ (negsuc a) (pos b) h = refl
ltb→≤ℤ (negsuc a) (negsuc b) h = ground arith
