-- ===== src/Text/Decimal.antt =====
-- Go's `strconv.Itoa`, `strconv.Atoi` and the `%02d` of `fmt.Sprintf`, for 64-bit integers.
pub mod RoundTrip
pub mod Digits
use Prim.Native.Char.{Char, code}
use sims.Prelude.{
  ℕ, zero, suc, ◌+◌, ◌-◌, ◌*◌, ◌/◌, ◌%◌, ◌^◌, String, Bool, true, false, ◌&&◌, Option, none, some,
  eqb, ltb, leb, if◌then◌else◌,
}
use sims.Prelude.Int.{ℤ, pos, negsuc, neg}

-- The digit of a number below ten.
abbrev pub digit : ℕ → Char
digit zero = "0"
digit (suc zero) = "1"
digit (suc (suc zero)) = "2"
digit (suc (suc (suc zero))) = "3"
digit (suc (suc (suc (suc zero)))) = "4"
digit (suc (suc (suc (suc (suc zero))))) = "5"
digit (suc (suc (suc (suc (suc (suc zero)))))) = "6"
digit (suc (suc (suc (suc (suc (suc (suc zero))))))) = "7"
digit (suc (suc (suc (suc (suc (suc (suc (suc zero)))))))) = "8"
digit (suc (suc (suc (suc (suc (suc (suc (suc (suc n))))))))) = "9"

-- The digits of `n` before `rest`; the fuel `n` is enough, since each round divides by ten.
unfoldable pub digits : ℕ → ℕ → String → String
digits zero n rest = String.◌∷◌ (digit n) rest
digits (suc f) n rest =
    let more = digits f (n / 10) (String.◌∷◌ (digit (n % 10)) rest) in
    if ltb n 10 then String.◌∷◌ (digit n) rest else more

unfoldable pub itoa : ℕ → String
unfolding digits
itoa n = digits n n ""

-- `%d` and strconv.Itoa of a signed integer.
unfoldable pub itoa_ℤ : ℤ → String
unfolding itoa
itoa_ℤ (pos n) = itoa n
itoa_ℤ (negsuc n) = String.◌∷◌ "-" (itoa (suc n))

-- `%02d` of a number that is not negative.
unfoldable pub pad2 : ℕ → String
unfolding itoa
pad2 n = if ltb n 10 then String.◌∷◌ "0" (itoa n) else itoa n

abbrev pub is_digit : Char → Bool
is_digit c = leb 48 (code c) && leb (code c) 57

-- The value of the digits, read after the value `n`.
unfoldable pub scan : ℕ → String → Option ℕ
scan n String.[] = some n
scan n (String.◌∷◌ c s) =
    let rest = scan (n * 10 + (code c - 48)) s in if is_digit c then rest else none

-- At least one digit.
unfoldable pub unsigned : String → Option ℕ
unfolding scan
unsigned String.[] = none
unsigned (String.◌∷◌ c s) = scan 0 (String.◌∷◌ c s)

-- The int64 of a magnitude, or an error out of range.
abbrev pub in_int64 : Bool → Option ℕ → Option ℤ
in_int64 negative none = none
in_int64 true (some n) = if ltb (2 ^ 63) n then none else some (neg (pos n))
in_int64 false (some n) = if ltb n (2 ^ 63) then some (pos n) else none

-- strconv.Atoi; the error value is not looked at by the callers.
unfoldable pub atoi : String → Option ℤ
unfolding unsigned
atoi String.[] = none
atoi (String.◌∷◌ c s) =
    if eqb (code c) 45
    then in_int64 true (unsigned s)
    else if eqb (code c) 43
    then in_int64 false (unsigned s)
    else in_int64 false (unsigned (String.◌∷◌ c s))
