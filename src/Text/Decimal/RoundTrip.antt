-- ===== src/Text/Decimal/RoundTrip.antt =====
-- Reading a printed number gives the number back, and printed numbers hold digits only.
use Prim.Native.Char.{code}
use text.Mathlib.TextLemmas.{head-eq_of_cons-eq}
use sims.Prelude.{
  ℕ, zero, suc, ◌+◌, ◌*◌, ◌/◌, ◌%◌, ◌^◌, ◌<◌, ◌≤◌, String, true, false, Option, some, ◌≡◌, refl, ap,
  ◌∙◌, sym, arith, ltb, Bool-cases, inl, inr,
}
use sims.Prelude.Int.{pos}
use sims.Text.{AllChars}
use sims.Text.Decimal.{digit, digits, itoa, is_digit, scan, unsigned, atoi, in_int64}

pub code-digit : (d : ℕ) → d < 10 → code (digit d) ≡ 48 + d
code-digit zero h = refl
code-digit (suc zero) h = refl
code-digit (suc (suc zero)) h = refl
code-digit (suc (suc (suc zero))) h = refl
code-digit (suc (suc (suc (suc zero)))) h = refl
code-digit (suc (suc (suc (suc (suc zero))))) h = refl
code-digit (suc (suc (suc (suc (suc (suc zero)))))) h = refl
code-digit (suc (suc (suc (suc (suc (suc (suc zero))))))) h = refl
code-digit (suc (suc (suc (suc (suc (suc (suc (suc zero)))))))) h = refl
code-digit (suc (suc (suc (suc (suc (suc (suc (suc (suc zero))))))))) h = refl
code-digit (suc (suc (suc (suc (suc (suc (suc (suc (suc (suc d)))))))))) h = absurd (omega arith)

pub digit-is_digit : (d : ℕ) → d < 10 → is_digit (digit d) ≡ true
digit-is_digit d h = ground (arith, code-digit d h)

scan-digit : (n d : ℕ) (s : String) → d < 10 → scan n (String.◌∷◌ (digit d) s) ≡ scan (n * 10 + d) s
unfolding scan
scan-digit n d s h =
    rw (digit-is_digit d h) (ap (λ (k : ℕ). scan (n * 10 + k) s) (omega (arith, code-digit d h)))

scan-digits : (f n : ℕ) (rest : String) → n ≤ f → scan 0 (digits f n rest) ≡ scan n rest
unfolding digits
scan-digits zero n rest h =
    scan-digit 0 n rest (omega arith) ∙ ap (λ (k : ℕ). scan k rest) (omega arith)
scan-digits (suc f) n rest h = elim (Bool-cases (ltb n 10)) [
  | inl small ↦
      rw small (scan-digit 0 n rest (ground arith) ∙ ap (λ (k : ℕ). scan k rest) (omega arith))
  | inr large ↦ rw large (
      scan-digits f (n / 10) (String.◌∷◌ (digit (n % 10)) rest) (ground arith)
      ∙ (scan-digit (n / 10) (n % 10) rest (omega arith)
          ∙ ap (λ (k : ℕ). scan k rest) (omega arith)))
]

-- A printed number starts with a digit, and it is read as a whole.
digits_head :
    (f n : ℕ) (rest : String)
    → n ≤ f
    → (d : ℕ) × (d < 10) × ((more : String) × (digits f n rest ≡ String.◌∷◌ (digit d) more))
unfolding digits
digits_head zero n rest h = (n, omega arith, (rest, refl))
digits_head (suc f) n rest h = elim (Bool-cases (ltb n 10)) [
  | inl small ↦ rw small (n, ground arith, (rest, refl))
  | inr large ↦ rw large (digits_head f (n / 10) (String.◌∷◌ (digit (n % 10)) rest) (ground arith))
]

unsigned-cons :
    (s : String) (d : ℕ) (more : String) → s ≡ String.◌∷◌ (digit d) more → unsigned s ≡ scan 0 s
unfolding unsigned
unsigned-cons String.[] d more e = cc
unsigned-cons (String.◌∷◌ c s) d more e = refl

-- strconv.Atoi of a printed number below 2^63 is that number.
pub unsigned-itoa : (n : ℕ) → unsigned (itoa n) ≡ some n
unfolding itoa
unsigned-itoa n =
    let (d, small, (more, e)) = digits_head n n "" (omega arith) in
    unsigned-cons (digits n n "") d more e ∙ (scan-digits n n "" (omega arith) ∙ done)
  where
    done : scan n "" ≡ some n
    done = unfold scan in refl

atoi-digit :
    (s : String) (d : ℕ) (more : String)
    → d < 10
    → s ≡ String.◌∷◌ (digit d) more
    → atoi s ≡ in_int64 false (unsigned s)
unfolding atoi
atoi-digit String.[] d more h e = cc
atoi-digit (String.◌∷◌ c s) d more h e =
    ground (arith, ap code (head-eq_of_cons-eq e), code-digit d h)

pub atoi-itoa : (n : ℕ) → n < 2 ^ 63 → atoi (itoa n) ≡ some (pos n)
unfolding itoa
atoi-itoa n h =
    let (d, small, (more, e)) = digits_head n n "" (omega arith) in
    atoi-digit (itoa n) d more small e ∙ rw (unsigned-itoa n) (ground arith)

digits-AllChars :
    (f n : ℕ) (rest : String) → n ≤ f → AllChars is_digit rest → AllChars is_digit (digits f n rest)
unfolding digits
digits-AllChars zero n rest h r = (digit-is_digit n (omega arith), r)
digits-AllChars (suc f) n rest h r = elim (Bool-cases (ltb n 10)) [
  | inl small ↦ rw small (digit-is_digit n (ground arith), r)
  | inr large ↦ rw large (
      digits-AllChars f (n / 10) (String.◌∷◌ (digit (n % 10)) rest) (ground arith)
        (digit-is_digit (n % 10) (omega arith), r))
]

pub itoa-AllChars : (n : ℕ) → AllChars is_digit (itoa n)
unfolding itoa
itoa-AllChars n = digits-AllChars n n "" (omega arith) tt

-- Two numbers with one text are equal.
pub itoa_inj : (m n : ℕ) → itoa m ≡ itoa n → m ≡ n
itoa_inj m n e = some_inj (sym (unsigned-itoa m) ∙ (ap unsigned e ∙ unsigned-itoa n))
  where
    some_inj : ◌≡◌ {A = Option ℕ} (some m) (some n) → m ≡ n
    some_inj q = ground arith
