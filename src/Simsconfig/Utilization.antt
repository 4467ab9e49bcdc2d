-- ===== src/Simsconfig/Utilization.antt =====
-- pkg/simsconfig/load.go, validateUtilRange: the texts that are accepted as a utilization range.
use Prim.Native.Char.{Char}
use sims.Prelude.{
  ℕ, ◌^◌, ◌≤◌, ◌<◌, String, true, [], ◌∷◌, Option, some, ◌≡◌, refl, ◌∙◌, ap, sym, ◌↔◌, arith,
  Option-cases, inl, inr,
}
use sims.Prelude.Int.{ℤ, pos}
use sims.Prelude.Results.{Result, ok, ◌>>=◌, >>=-eq-ok}
use sims.Text.{concat, AllChars-imp}
use sims.Text.Decimal.{itoa, atoi, is_digit}
use sims.Text.Decimal.RoundTrip.{atoi-itoa, itoa-AllChars}
use sims.Text.Split.{split_2, split_2-append, is_not}
use sims.Simsconfig.Load.{
  RangeError, validate_util_range, check_parts, check_bounds, bound, bad_low, bad_high,
}

-- A text of two decimal bounds with a dash between them, in order and at most 100.
abbrev pub IsUtilRange : String → Type 0
IsUtilRange s =
    (p : String × String) × (lo : ℕ) × (hi : ℕ) × (split_2 b'-' s ≡ some p)
    × (atoi p.0 ≡ some (pos lo))
    × (atoi p.1 ≡ some (pos hi))
    × (lo ≤ hi)
    × (hi ≤ 100)

bounds_in_range :
    (lo hi : ℤ)
    → check_bounds lo hi ≡ ok tt
    → (a : ℕ) × (b : ℕ) × (lo ≡ pos a) × (hi ≡ pos b) × (a ≤ b) × (b ≤ 100)
bounds_in_range (pos a) (pos b) h = (a, b, refl, refl, ground arith, ground arith)
bounds_in_range (pos a) (ℤ.negsuc b) h = absurd (ground arith)
bounds_in_range (ℤ.negsuc a) hi h = absurd (ground arith)

bound-ok : (e : String → RangeError) (s : String) (n : ℤ) → bound e s ≡ ok n → atoi s ≡ some n
bound-ok e s n h = elim (Option-cases (atoi s)) [
  | inl no_value ↦ ground (arith, no_value)
  | inr (m, value) ↦ ground (arith, value)
]

parts_accepted :
    (s a b : String)
    → check_parts s (some (a, b)) ≡ ok tt
    → split_2 b'-' s ≡ some (a, b)
    → IsUtilRange s
parts_accepted s a b h e =
    let (lo, is_lo, h1) = >>=-eq-ok (bound bad_low a) _ h in
    let (hi, is_hi, h2) = >>=-eq-ok (bound bad_high b) _ h1 in
    let (m, n, at_lo, at_hi, le, top) = bounds_in_range lo hi h2 in
    (
      (a, b),
      m,
      n,
      e,
      bound-ok bad_low a lo is_lo ∙ ap some at_lo,
      bound-ok bad_high b hi is_hi ∙ ap some at_hi,
      le,
      top,
    )

pub validate_util_range-IsUtilRange : (s : String) → validate_util_range s ≡ ok tt → IsUtilRange s
unfolding validate_util_range
validate_util_range-IsUtilRange s h = elim (Option-cases (split_2 b'-' s)) [
  | inl one_part ↦ cc (rw one_part at h)
  | inr ((a, b), two_parts) ↦ parts_accepted s a b (rw two_parts at h) two_parts
]

in_range_accepted : (lo hi : ℕ) → lo ≤ hi → hi ≤ 100 → check_bounds (pos lo) (pos hi) ≡ ok tt
in_range_accepted lo hi h k = ground arith

pub IsUtilRange-validate_util_range : (s : String) → IsUtilRange s → validate_util_range s ≡ ok tt
unfolding validate_util_range
IsUtilRange-validate_util_range s ((a, b), lo, hi, e, is_lo, is_hi, le, top) = rw e (
    ap (λ (r : Result RangeError ℤ). r >>= λ x. bound bad_high b >>= λ y. check_bounds x y) lo_ok
    ∙ (ap (λ (r : Result RangeError ℤ). r >>= λ y. check_bounds (pos lo) y) hi_ok
        ∙ in_range_accepted lo hi le top))
  where
    lo_ok : bound bad_low a ≡ ok (pos lo)
    lo_ok = rw (is_lo, bound)

    hi_ok : bound bad_high b ≡ ok (pos hi)
    hi_ok = rw (is_hi, bound)

digit_is_not_dash : (c : Char) → is_digit c ≡ true → is_not b'-' c ≡ true
digit_is_not_dash c h = ground arith

pub split_bounds :
    (lo hi : ℕ) → split_2 b'-' (concat (itoa lo ∷ "-" ∷ itoa hi ∷ [])) ≡ some (itoa lo, itoa hi)
split_bounds lo hi =
    split_2-append "-" (itoa lo) (itoa hi)
      (AllChars-imp is_digit (is_not b'-') (itoa lo) digit_is_not_dash (itoa-AllChars lo))

same_bounds :
    (lo hi : ℕ) (a b : String) (m n : ℕ)
    → lo < 2 ^ 63
    → hi < 2 ^ 63
    → ◌≡◌ {A = Option (String × String)} (some (itoa lo, itoa hi)) (some (a, b))
    → atoi a ≡ some (pos m)
    → atoi b ≡ some (pos n)
    → m ≤ n
    → n ≤ 100
    → (lo ≤ hi) × (hi ≤ 100)
same_bounds lo hi a b m n sl sh e is_lo is_hi le top =
    ground (arith, atoi-itoa lo sl, atoi-itoa hi sh, same_pair e)
  where
    same_pair :
        ◌≡◌ {A = Option (String × String)} (some (itoa lo, itoa hi)) (some (a, b))
        → (itoa lo ≡ a) × (itoa hi ≡ b)
    same_pair q = (cc, cc)

-- The text `lo-hi` of two numbers below 2^63, in decimal, is accepted as a utilization range
-- exactly when lo ≤ hi and hi ≤ 100.
pub util_range_exact :
    (lo hi : ℕ)
    → lo < 2 ^ 63
    → hi < 2 ^ 63
    → (validate_util_range (concat (itoa lo ∷ "-" ∷ itoa hi ∷ [])) ≡ ok tt)
      ↔ ((lo ≤ hi) × (hi ≤ 100))
util_range_exact lo hi small_lo small_hi = (
  λ h.
      let ((a, b), m, n, e, is_lo, is_hi, le, top) = validate_util_range-IsUtilRange _ h in
      same_bounds lo hi a b m n small_lo small_hi (sym (split_bounds lo hi) ∙ e) is_lo is_hi le top,
  λ h. IsUtilRange-validate_util_range _ (
    (itoa lo, itoa hi),
    lo,
    hi,
    split_bounds lo hi,
    atoi-itoa lo small_lo,
    atoi-itoa hi small_hi,
    h.0,
    h.1,
  ),
)
