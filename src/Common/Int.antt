-- ===== src/Common/Int.antt =====
-- Signed integers over the native numbers, and the wrap-around of a 32-bit `int`.
use Prim.Native.Nat.{ℕ, suc, ◌+◌, ◌-◌, ◌%◌, ◌<◌, ◌≤◌, ◌^◌}
use mathlib.Core.Path.{◌≡◌}
use mathlib.Core.Bool.{Bool, false}
use native.Mathlib.Omega.{arith}
use looka.Common.Tests.{if◌then◌else◌, ltb, leb}

-- `negsuc n` is -(n + 1).
pub data ℤ : Type 0 where
  pos : ℕ → ℤ
  negsuc : ℕ → ℤ

abbrev pub pos_part : ℤ → ℕ
pos_part (pos n) = n
pos_part (negsuc n) = 0

abbrev pub neg_part : ℤ → ℕ
neg_part (pos n) = 0
neg_part (negsuc n) = suc n

abbrev pub sub_ℕ : ℕ → ℕ → ℤ
sub_ℕ a b = if leb b a then pos (a - b) else negsuc (b - a - 1)

infixl 65 ◌+ℤ◌ ◌-ℤ◌
unfoldable pub ◌+ℤ◌ : ℤ → ℤ → ℤ
a +ℤ b = sub_ℕ (pos_part a + pos_part b) (neg_part a + neg_part b)

unfoldable pub ◌-ℤ◌ : ℤ → ℤ → ℤ
a -ℤ b = sub_ℕ (pos_part a + neg_part b) (neg_part a + pos_part b)

-- a < b and a ≤ b
abbrev pub ltℤ : ℤ → ℤ → Bool
ltℤ a b = ltb (pos_part a + neg_part b) (pos_part b + neg_part a)

abbrev pub leℤ : ℤ → ℤ → Bool
leℤ a b = leb (pos_part a + neg_part b) (pos_part b + neg_part a)

abbrev pub eqℤ : ℤ → ℤ → Bool
eqℤ a b = if leℤ a b then leℤ b a else false

-- The bit pattern of a value in `w = 2 ^ 32`, and the signed value of a bit pattern.
abbrev pub to_u32 : ℤ → ℕ
to_u32 (pos n) = n % 2 ^ 32
to_u32 (negsuc n) = (2 ^ 32 - 1) - n % 2 ^ 32

abbrev pub of_u32 : ℕ → ℤ
of_u32 n = if ltb n (2 ^ 31) then pos n else negsuc (2 ^ 32 - 1 - n)

-- An `int` operation's exact result, brought back to 32 bits.
unfoldable pub wrap_int : ℤ → ℤ
wrap_int a = of_u32 (to_u32 a)

pub wrap_int-pos : (n : ℕ) → n < 2 ^ 31 → wrap_int (pos n) ≡ pos n
unfolding wrap_int
wrap_int-pos n h = ground arith

pub wrap_int-negsuc : (n : ℕ) → 2 ^ 31 ≤ n → n < 2 ^ 32 → wrap_int (pos n) ≡ negsuc (2 ^ 32 - 1 - n)
unfolding wrap_int
wrap_int-negsuc n large small = ground arith
