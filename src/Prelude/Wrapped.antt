-- ===== src/Prelude/Wrapped.antt =====
-- The sums of Go's int: what wraps around on the way gives the same as a wrap-around at the end.
use mathlib.Core.Path.{◌≡◌, refl}
use native.Mathlib.Omega.{arith}
use sims.Prelude.Int.{ℤ, pos, negsuc, wrap64, bits64, ◌+ℤ◌}

bits64_sum : (a b : ℤ) → bits64 (wrap64 a +ℤ b) ≡ bits64 (a +ℤ b)
bits64_sum (pos n) (pos m) = ground arith
bits64_sum (pos n) (negsuc m) = ground arith
bits64_sum (negsuc n) (pos m) = ground arith
bits64_sum (negsuc n) (negsuc m) = ground arith

pub wrap64_sum : (a b : ℤ) → wrap64 (wrap64 a +ℤ b) ≡ wrap64 (a +ℤ b)
wrap64_sum a b = rw (bits64_sum a b) refl

pub sum_assoc : (a b c : ℤ) → (a +ℤ b) +ℤ c ≡ a +ℤ (b +ℤ c)
sum_assoc (pos a) (pos b) (pos c) = ground arith
sum_assoc (pos a) (pos b) (negsuc c) = ground arith
sum_assoc (pos a) (negsuc b) (pos c) = ground arith
sum_assoc (pos a) (negsuc b) (negsuc c) = ground arith
sum_assoc (negsuc a) (pos b) (pos c) = ground arith
sum_assoc (negsuc a) (pos b) (negsuc c) = ground arith
sum_assoc (negsuc a) (negsuc b) (pos c) = ground arith
sum_assoc (negsuc a) (negsuc b) (negsuc c) = ground arith

pub sum_zero : (a : ℤ) → a +ℤ pos 0 ≡ a
sum_zero (pos n) = ground arith
sum_zero (negsuc n) = ground arith

pub zero_sum : (a : ℤ) → pos 0 +ℤ a ≡ a
zero_sum (pos n) = ground arith
zero_sum (negsuc n) = ground arith
