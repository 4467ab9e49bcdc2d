-- ===== src/Prelude/Int.antt =====
-- Go's signed integers, over the native numbers. `wrap32` is the wrap-around of int32.
use Prim.Native.Nat.{ℕ, zero, suc, ◌+◌, ◌-◌, ◌*◌, ◌/◌, ◌%◌, ◌^◌, ◌<◌}
use mathlib.Core.Path.{◌≡◌}
use mathlib.Core.Bool.{Bool, true, false}
use native.Mathlib.Omega.{arith}
use sims.Prelude.Tests.{ltb, leb, if◌then◌else◌}

-- `negsuc n` is -(n + 1).
pub data ℤ : Type 0 where
  pos : ℕ → ℤ
  negsuc : ℕ → ℤ

abbrev pub pos_part : ℤ → ℕ
pos_part (pos n) = n
pos_part (negsuc n) = 0

abbrev pub neg_part : ℤ → ℕ
neg_part (pos n) = 0
neg_part (negsuc n) = suc n

-- a - b, as an integer.
abbrev pub sub_ℕ : ℕ → ℕ → ℤ
sub_ℕ a b = if leb b a then pos (a - b) else negsuc (b - a - 1)

abbrev pub neg : ℤ → ℤ
neg a = sub_ℕ (neg_part a) (pos_part a)

abbrev pub ltb_ℤ : ℤ → ℤ → Bool
ltb_ℤ a b = ltb (pos_part a + neg_part b) (pos_part b + neg_part a)

abbrev pub leb_ℤ : ℤ → ℤ → Bool
leb_ℤ a b = leb (pos_part a + neg_part b) (pos_part b + neg_part a)

abbrev pub is_zero : ℤ → Bool
is_zero (pos zero) = true
is_zero _ = false

-- The loop count of `for range n` and the length of `make([]T, n)`: none when `n` is negative.
abbrev pub to_ℕ : ℤ → ℕ
to_ℕ a = pos_part a

infixl 70 ◌*ℤ◌
abbrev pub ◌*ℤ◌ : ℤ → ℤ → ℤ
◌*ℤ◌ a b =
    sub_ℕ (pos_part a * pos_part b + neg_part a * neg_part b)
      (pos_part a * neg_part b + neg_part a * pos_part b)

-- Go's `/`, which truncates towards zero, by a positive divisor.
abbrev pub quot : ℤ → ℕ → ℤ
quot (pos n) d = pos (n / d)
quot (negsuc n) d = neg (pos (suc n / d))

-- The bit pattern of 32 bits that a product leaves, as a number below 2^32.
abbrev pub bits32 : ℤ → ℕ
bits32 (pos n) = n % 2 ^ 32
bits32 (negsuc n) = (2 ^ 32 - 1) - n % 2 ^ 32

-- An int32 result: the value of the low 32 bits in two's complement.
abbrev pub wrap32 : ℤ → ℤ
wrap32 a = if ltb (bits32 a) (2 ^ 31) then pos (bits32 a) else negsuc (2 ^ 32 - 1 - bits32 a)

-- A product in range is not changed by the wrap-around.
pub wrap32_in_range : (n : ℕ) → n < 2 ^ 31 → wrap32 (pos n) ≡ pos n
wrap32_in_range n h = ground arith

infixl 65 ◌+ℤ◌
abbrev pub ◌+ℤ◌ : ℤ → ℤ → ℤ
◌+ℤ◌ a b = sub_ℕ (pos_part a + pos_part b) (neg_part a + neg_part b)

-- The value of the low 64 bits, which a sum of two int keeps.
abbrev pub bits64 : ℤ → ℕ
bits64 (pos n) = n % 2 ^ 64
bits64 (negsuc n) = (2 ^ 64 - 1) - n % 2 ^ 64

abbrev pub wrap64 : ℤ → ℤ
wrap64 a = if ltb (bits64 a) (2 ^ 63) then pos (bits64 a) else negsuc (2 ^ 64 - 1 - bits64 a)
