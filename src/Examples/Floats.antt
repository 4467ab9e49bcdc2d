-- ===== src/Examples/Floats.antt =====
-- A float64 that the laws of `Ieee` hold of: hundredths, cut off at 0 below, and one NaN.
use sims.Prelude.{
  ℕ, zero, suc, ◌+◌, ◌-◌, ◌*◌, ◌/◌, ◌≤◌, ◌<◌, Bool, true, false, Option, none, some, ◌≡◌, arith,
  ltb, leb, eqb, if◌then◌else◌, ◌==◌, ap,
}
use native.Mathlib.Nat.{div-lt_iff_lt-mul, div-eq_of_lt, div-eq_of_eq-mul_left}
use sims.Prelude.Int.{ℤ, pos, negsuc}
use sims.Prelude.Float.{Float64, Ieee}
use sims.Text.Decimal.{atoi}

abbrev Hundredths : Type 0
Hundredths = Option ℕ

abbrev both : (ℕ → ℕ → ℕ) → Hundredths → Hundredths → Hundredths
both f none b = none
both f (some a) none = none
both f (some a) (some b) = some (f a b)

abbrev test : (ℕ → ℕ → Bool) → Hundredths → Hundredths → Bool
test p none b = false
test p (some a) none = false
test p (some a) (some b) = p a b

-- m hundredths over 10^k
abbrev scaled : ℕ → ℕ → ℕ
scaled m zero = m * 100
scaled m (suc k) = scaled m k / 10

abbrev from_ℤ : ℤ → Hundredths
from_ℤ (pos n) = some (n * 100)
from_ℤ (negsuc n) = some 0

abbrev from_read : Option ℤ → Option Hundredths
from_read none = none
from_read (some z) = some (from_ℤ z)

abbrev pub hundredths : Float64
hundredths = record {
  F = Hundredths;
  lit = λ m k. some (scaled m k);
  of_ℤ = from_ℤ;
  add = both (λ a b. a + b);
  sub = both (λ a b. a - b);
  mul = both (λ a b. a * b / 100);
  div = both (λ a b. a * 100 / b);
  lt = test ltb;
  le = test leb;
  eq = test eqb;
  parse_float = λ s. if s == "NaN" then some none else from_read (atoi s);
}

open hundredths use {lit, of_ℤ, add, mul, div, le, lt}

tr : (a b c : Hundredths) → le a b ≡ true → le b c ≡ true → le a c ≡ true
tr a b c h k = ground arith

product_mono : (a b c : ℕ) → a ≤ b → a * c ≤ b * c
product_mono a b c h = grind arith

mul_mono : (c : ℕ) (a b : Hundredths) → le a b ≡ true → le (mul a (some c)) (mul b (some c)) ≡ true
mul_mono c none b h = cc
mul_mono c (some a) none h = cc
mul_mono c (some a) (some b) h = ground (arith, product_mono a b c)

quotient_mono : (a b c : ℕ) → 0 < c → a ≤ b → a / c ≤ b / c
quotient_mono a b c p h =
    let above = (div-lt_iff_lt-mul {x = b} {y = suc (b / c)} p).0 (omega arith) in
    let below : a < suc (b / c) * c = omega arith in
    let bound = (div-lt_iff_lt-mul {x = a} {y = suc (b / c)} p).1 below in omega arith

div_mono :
    (m : ℕ) (a b : Hundredths)
    → 0 < m
    → le a b ≡ true
    → le (div a (lit m 0)) (div b (lit m 0)) ≡ true
div_mono m none b p h = cc
div_mono m (some a) none p h = cc
div_mono m (some a) (some b) p h =
    ground (arith, quotient_mono (a * 100) (b * 100) (m * 100), product_mono a b 100)

pub hundredths_ieee : Ieee hundredths
hundredths_ieee = record {
  le_trans = tr;
  le_refl = λ a b h. ground arith;
  lt_total = λ a b ra rb. ground arith;
  lt_NaN = λ a b h. ground arith;
  lit_le = λ a b h. ground arith;
  add_lit = λ m k a b h. ground arith;
  add_small = λ a b c h l u. ground arith;
  mul_lit = λ m k a b p q h. mul_mono (scaled m k) a b h;
  div_lit = div_mono;
  zero_div = λ m p. ap some (div-eq_of_lt (omega arith));
  self_div = λ m p. ap some (
      div-eq_of_eq-mul_left {n = m * 100} {m = m * 100 * 100} {k = 100} (omega arith)
        (omega arith));
  mul_int = λ n a b l h u. mul_mono (n * 100) a b h;
}
