-- ===== src/Rocm/Utilization.antt =====
-- operators/fake-rocm-gpu-operator/pkg/annotations/parse.go, and pkg/simsconfig/load.go beside it: which
-- utilization texts the exporter accepts, and what range it makes of them.
use sims.Prelude.{
  ℕ, ◌≤◌, String, true, false, Option, none, some, ◌≡◌, refl, ◌∙◌, ap, Bool-cases, inl, inr, arith,
}
use sims.Prelude.Int.{pos}
use sims.Prelude.Float.{Float64, Ieee}
use sims.Prelude.Results.{Result, ok, ◌>>=◌, >>=-eq-ok}
use sims.Text.{is_empty, append, trim_space, trim_space_solid, AllChars}
use sims.Text.Decimal.{atoi}
use sims.Text.Decimal.Digits.{atoi-solid}
use sims.Text.Split.{split_2-append, is_not}
use sims.Simsconfig.Load.{validate_util_range}
use sims.Simsconfig.Utilization.{validate_util_range-IsUtilRange}
use sims.Rocm.Annotations.{
  Range, RangeError, bad_low, bad_high, bound, is_bad, check_range, parse_parts,
  parse_utilization_with_default,
}

module _ (fl : Float64) (ieee : Ieee fl) where
  open fl use {F, lit, lt, le, parse_float}
  open ieee use {lt_total, lt_NaN, lit_le}

  check_range-ok :
      (low high : F) (r : Range fl)
      → check_range fl low high ≡ ok r
      → (is_bad fl low high ≡ false) × (r.low ≡ low) × (r.high ≡ high)
  check_range-ok low high r h = elim (Bool-cases (is_bad fl low high)) [
    | inl bad ↦ cc (rw bad at h)
    | inr good ↦ (good, cc (rw good at h), cc (rw good at h))
  ]

  parts-ok :
      (t : String) (o : Option (String × String)) (r : Range fl)
      → parse_parts fl t o ≡ ok r
      → (low : F) × (high : F) × (check_range fl low high ≡ ok r)
  parts-ok t none r h = cc
  parts-ok t (some (a, b)) r h =
      let (low, l, h1) =
        >>=-eq-ok (bound fl bad_low a) (λ x. bound fl bad_high b >>= λ y. check_range fl x y) h in
      let (high, g, h2) = >>=-eq-ok (bound fl bad_high b) (λ y. check_range fl low y) h1 in
      (low, high, h2)

  -- An accepted range whose bounds are numbers lies in 0 to 100 and is in order.
  pub accepted_range_ordered :
      (s fallback : String) (r : Range fl)
      → parse_utilization_with_default fl s fallback ≡ ok r
      → le r.low r.low ≡ true
      → le r.high r.high ≡ true
      → (le (lit 0 0) r.low ≡ true) × (le r.low r.high ≡ true) × (le r.high (lit 100 0) ≡ true)
  unfolding parse_utilization_with_default
  accepted_range_ordered s fallback r h nl nh =
      let (low, high, c) = parts-ok _ _ r h in
      let (good, l, g) = check_range-ok low high r c in
      ground (
        arith,
        lt_total r.low (lit 0 0) nl (lit_le 0 0 (omega arith)),
        lt_total (lit 100 0) r.high (lit_le 100 100 (omega arith)) nh,
        lt_total r.high r.low nh nl,
        good_bounds low high r good l g,
      )
    where
      good_bounds :
          (low high : F) (q : Range fl)
          → is_bad fl low high ≡ false
          → q.low ≡ low
          → q.high ≡ high
          → is_bad fl q.low q.high ≡ false
      good_bounds low high q good l g = rw (l, g) good

  bound_of :
      (e : String → RangeError) (s : String) (z : F)
      → parse_float (trim_space s) ≡ some z
      → bound fl e s ≡ ok z
  bound_of e s z q = rw (q, bound)

  parts_of :
      (t a b : String) (x y : F)
      → parse_float (trim_space a) ≡ some x
      → parse_float (trim_space b) ≡ some y
      → is_bad fl x y ≡ false
      → parse_parts fl t (some (a, b)) ≡ ok (record { low = x; high = y })
  parts_of t a b x y px py good =
      ap (λ (r : Result RangeError F). r >>= λ u. bound fl bad_high b >>= λ v. check_range fl u v)
        (bound_of bad_low a x px)
      ∙ (ap (λ (r : Result RangeError F). r >>= λ v. check_range fl x v) (bound_of bad_high b y py)
          ∙ rw good refl)

  not_empty : (a b : String) → is_empty (append a (append "-" b)) ≡ false
  not_empty String.[] b = refl
  not_empty (String.◌∷◌ c s) b = refl

  -- A text `a-b`, without a dash in `a`, whose two parts are both read as a NaN is accepted, and its
  -- range is the two NaNs: no test of the bounds holds of a NaN.
  pub NaN_accepted :
      (a b fallback : String) (x y : F)
      → AllChars (is_not b'-') a
      → parse_float (trim_space a) ≡ some x
      → parse_float (trim_space b) ≡ some y
      → le x x ≡ false
      → le y y ≡ false
      → parse_utilization_with_default fl (append a (append "-" b)) fallback
        ≡ ok (record { low = x; high = y })
  unfolding parse_utilization_with_default
  NaN_accepted a b fallback x y dashless px py nx ny =
      rw (not_empty a b, split_2-append "-" a b dashless)
        (parts_of (append a (append "-" b)) a b x y px py no_test_holds)
    where
      no_test_holds : is_bad fl x y ≡ false
      no_test_holds =
          rw ((lt_NaN x (lit 0 0) nx).0, (lt_NaN y (lit 100 0) ny).1, (lt_NaN y x ny).0) refl

  integers_good : (m n : ℕ) → m ≤ n → n ≤ 100 → is_bad fl (lit m 0) (lit n 0) ≡ false
  integers_good m n h k = ground (
    arith,
    lt_total (lit m 0) (lit 0 0) (lit_le m m (omega arith)) (lit_le 0 0 (omega arith)),
    lt_total (lit 100 0) (lit n 0) (lit_le 100 100 (omega arith)) (lit_le n n (omega arith)),
    lt_total (lit n 0) (lit m 0) (lit_le n n (omega arith)) (lit_le m m (omega arith)),
    lit_le 0 m (omega arith),
    lit_le n 100 k,
    lit_le m n h,
  )

  -- Every default utilization that the configuration file may hold is one that the exporter accepts,
  -- with the same two bounds. The hypothesis is what strconv documents of the two readers: a decimal
  -- text of a number up to 100 is read by ParseFloat as that number.
  pub configured_default_accepted :
      (u : String)
      → ((s : String) (n : ℕ) → atoi s ≡ some (pos n) → n ≤ 100 → parse_float s ≡ some (lit n 0))
      → validate_util_range u ≡ ok tt
      → (lo : ℕ) × (hi : ℕ) × (lo ≤ hi)
        × (hi ≤ 100)
        × (parse_utilization_with_default fl "" u ≡ ok (record { low = lit lo 0; high = lit hi 0 }))
  unfolding parse_utilization_with_default
  configured_default_accepted u reads h =
      let ((a, b), lo, hi, e, is_lo, is_hi, le_hi, top) = validate_util_range-IsUtilRange u h in
      (
        lo,
        hi,
        le_hi,
        top,
        rw e (
            parts_of u a b (lit lo 0) (lit hi 0) (trimmed a lo is_lo (omega arith))
              (trimmed b hi is_hi top) (integers_good lo hi le_hi top)),
      )
    where
      trimmed :
          (s : String) (n : ℕ)
          → atoi s ≡ some (pos n)
          → n ≤ 100
          → parse_float (trim_space s) ≡ some (lit n 0)
      trimmed s n is_n small =
          rw (trim_space_solid s (atoi-solid s (pos n) is_n)) (reads s n is_n small)
