-- ===== src/Text/Decimal/Digits.antt =====
-- What strconv.Atoi accepts holds a sign and digits only, so no space stands in it.
use Prim.Native.Char.{Char, code}
use sims.Prelude.{
  ℕ, ◌+◌, ◌-◌, ◌*◌, String, Bool, true, false, none, some, ◌≡◌, arith, Bool-cases, inl, inr, eqb,
  Option-cases,
}
use sims.Prelude.Int.{ℤ}
use sims.Text.{AllChars, AllChars-imp, is_solid}
use sims.Text.Decimal.{is_digit, scan, unsigned, atoi, in_int64}

scan-digits : (n m : ℕ) (s : String) → scan n s ≡ some m → AllChars is_digit s
unfolding scan
scan-digits n m String.[] h = tt
scan-digits n m (String.◌∷◌ c s) h = elim (Bool-cases (is_digit c)) [
  | inl digit ↦ (digit, scan-digits (n * 10 + (code c - 48)) m s (rw digit at h))
  | inr other ↦ cc (rw other at h)
]

unsigned-digits : (m : ℕ) (s : String) → unsigned s ≡ some m → AllChars is_digit s
unfolding unsigned
unsigned-digits m String.[] h = cc
unsigned-digits m (String.◌∷◌ c s) h = scan-digits 0 m (String.◌∷◌ c s) h

digit_solid : (c : Char) → is_digit c ≡ true → is_solid c ≡ true
digit_solid c h = ground arith

signed-digits :
    (b : Bool) (s : String) (z : ℤ) → in_int64 b (unsigned s) ≡ some z → AllChars is_solid s
signed-digits b s z h = elim (Option-cases (unsigned s)) [
  | inl fails ↦ none_left b (rw fails at h)
  | inr (m, e) ↦ AllChars-imp is_digit is_solid s digit_solid (unsigned-digits m s e)
]
  where
    none_left : (d : Bool) → in_int64 d none ≡ some z → AllChars is_solid s
    none_left true q = cc
    none_left false q = cc

pub atoi-solid : (s : String) (z : ℤ) → atoi s ≡ some z → AllChars is_solid s
unfolding atoi
atoi-solid String.[] z h = tt
atoi-solid (String.◌∷◌ c s) z h = elim (Bool-cases (eqb (code c) 45)) [
  | inl minus ↦ (ground arith, signed-digits true s z (rw minus at h))
  | inr no_minus ↦ elim (Bool-cases (eqb (code c) 43)) [
    | inl plus ↦ (ground arith, signed-digits false s z (rw (no_minus, plus) at h))
    | inr no_plus ↦ signed-digits false (String.◌∷◌ c s) z (rw (no_minus, no_plus) at h)
  ]
]
