-- ===== src/Prelude/Float.antt =====
-- Go's float64, which the language of the model does not have: its operations are a parameter, and
-- `Ieee` states what is used of them. No law here speaks of exact arithmetic: each is a monotonicity
-- that rounding keeps, on numbers that are no NaN.
use sims.Prelude.Tests.{if◌then◌else◌}
use sims.Prelude.Int.{ℤ, pos, negsuc}
use Prim.Native.Nat.{ℕ, ◌≤◌, ◌<◌}
use Prim.Native.String.{String}
use mathlib.Core.Path.{◌≡◌}
use mathlib.Core.Bool.{Bool, true, false}
use mathlib.Core.Option.{Option}

pub record Float64 : Type 1 where
  pub F : Type 0
  -- `lit m k` is the constant m / 10^k
  pub lit : ℕ → ℕ → F
  -- float64(n)
  pub of_ℤ : ℤ → F
  pub add : F → F → F
  pub sub : F → F → F
  pub mul : F → F → F
  pub div : F → F → F
  -- x < y, x <= y and x == y
  pub lt : F → F → Bool
  pub le : F → F → Bool
  pub eq : F → F → Bool
  -- strconv.ParseFloat(s, 64)
  pub parse_float : String → Option F

-- What IEEE 754 says of the operations that the program uses, on the values that it uses them on.
pub record Ieee (f : Float64) : Type 0 where
  pub le_trans : (a b c : f.F) → f.le a b ≡ true → f.le b c ≡ true → f.le a c ≡ true
  -- A number is at most itself, and a NaN is not.
  pub le_refl : (a b : f.F) → f.le a b ≡ true → (f.le a a ≡ true) × (f.le b b ≡ true)
  -- Two numbers are ordered.
  pub lt_total :
      (a b : f.F)
      → f.le a a ≡ true
      → f.le b b ≡ true
      → f.lt a b ≡ (if f.le b a then false else true)
  -- A comparison with a NaN is false.
  pub lt_NaN : (a b : f.F) → f.le a a ≡ false → (f.lt a b ≡ false) × (f.lt b a ≡ false)
  pub lit_le : (a b : ℕ) → a ≤ b → f.le (f.lit a 0) (f.lit b 0) ≡ true
  -- A constant, added to both.
  pub add_lit :
      (m k : ℕ) (a b : f.F)
      → f.le a b ≡ true
      → f.le (f.add (f.lit m k) a) (f.add (f.lit m k) b) ≡ true
  -- A number between -1 and 1, added to both.
  pub add_small :
      (a b c : f.F)
      → f.le a b ≡ true
      → f.le (f.of_ℤ (negsuc 0)) c ≡ true
      → f.le c (f.lit 1 0) ≡ true
      → f.le (f.add a c) (f.add b c) ≡ true
  -- Both times or over a positive constant.
  pub mul_lit :
      (m k : ℕ) (a b : f.F)
      → 0 < m
      → k ≤ 3
      → f.le a b ≡ true
      → f.le (f.mul a (f.lit m k)) (f.mul b (f.lit m k)) ≡ true
  pub div_lit :
      (m : ℕ) (a b : f.F)
      → 0 < m
      → f.le a b ≡ true
      → f.le (f.div a (f.lit m 0)) (f.div b (f.lit m 0)) ≡ true
  pub zero_div : (m : ℕ) → 0 < m → f.div (f.lit 0 0) (f.lit m 0) ≡ f.lit 0 0
  pub self_div : (m : ℕ) → 0 < m → f.div (f.lit m 0) (f.lit m 0) ≡ f.lit 1 0
  -- Two numbers from 0 to 100, times a byte count that is not negative.
  pub mul_int :
      (n : ℕ) (a b : f.F)
      → f.le (f.lit 0 0) a ≡ true
      → f.le a b ≡ true
      → f.le b (f.lit 100 0) ≡ true
      → f.le (f.mul a (f.of_ℤ (pos n))) (f.mul b (f.of_ℤ (pos n))) ≡ true
