-- ===== src/Text/Flags.antt =====
-- Go's `flag` package, for flags that take a value: fs.Parse of the arguments of a subcommand, and the
-- values of its flags. strconv.ParseInt and time.ParseDuration are parameters.
use Prim.Native.Char.{code}
use sims.Prelude.{
  ℕ, ◌^◌, ◌<◌, String, Bool, true, false, ◌||◌, List, [], ◌∷◌, Option, none, some, if◌then◌else◌,
  ◌==◌, ◌≡◌, eqb,
}
use sims.Prelude.Int.{ℤ, pos}
use sims.Prelude.Maps.{Map, lookup, insert}
use sims.Prelude.Results.{Result, ok, err, ◌>>=◌}
use sims.Text.Decimal.{itoa}
use sims.Text.Split.{split_2}

pub data FlagError : Type 0 where
  help_requested : FlagError
  bad_syntax : String → FlagError
  not_defined : String → FlagError
  needs_argument : String → FlagError
  invalid_value : String → String → FlagError

-- By the name of a flag, the texts that its Set accepts.
abbrev pub FlagSet : Type 0
FlagSet = Map (String → Bool)

-- What an argument is: it ends the flags, it is wrong, or it is a flag with its value or without one.
pub data Reading : Type 0 where
  ends : Reading
  wrong : FlagError → Reading
  given : String → String → Reading
  wanting : String → Reading

abbrev known : FlagSet → String → Reading → Reading
known flags name r = elim (lookup flags name) [
  | none ↦ wrong (if name == "help" || name == "h" then help_requested else not_defined name)
  | some accepts ↦ r
]

abbrev split_name : FlagSet → String → Option (String × String) → Reading
split_name flags text none = known flags text (wanting text)
split_name flags text (some (name, value)) = known flags name (given name value)

-- The text after the dashes.
abbrev named : FlagSet → String → Reading
named flags String.[] = wrong (bad_syntax "")
named flags (String.◌∷◌ c s) =
    if eqb (code c) b'-' || eqb (code c) b'='
    then wrong (bad_syntax (String.◌∷◌ c s))
    else split_name flags (String.◌∷◌ c s) (split_2 b'=' (String.◌∷◌ c s))

abbrev after_two : FlagSet → String → Reading
after_two flags String.[] = ends
after_two flags (String.◌∷◌ c s) = named flags (String.◌∷◌ c s)

abbrev read_arg : FlagSet → String → Reading
read_arg flags String.[] = ends
read_arg flags (String.◌∷◌ c String.[]) = ends
read_arg flags (String.◌∷◌ c (String.◌∷◌ d s)) =
    if eqb (code c) b'-'
    then (if eqb (code d) b'-' then after_two flags s else named flags (String.◌∷◌ d s))
    else ends

abbrev set_flag : FlagSet → String → String → Map String → Result FlagError (Map String)
set_flag flags name value values = elim (lookup flags name) [
  | none ↦ err (not_defined name)
  | some accepts ↦
      if accepts value then ok (insert values name value) else err (invalid_value name value)
]

-- fs.Parse: the texts of the flags that are set; a flag without "=" takes the next argument.
unfoldable pub parse : FlagSet → List String → Map String → Result FlagError (Map String)
parse flags [] values = ok values
parse flags (s ∷ []) values = elim (read_arg flags s) [
  | ends ↦ ok values
  | wrong e ↦ err e
  | given name value ↦ set_flag flags name value values
  | wanting name ↦ err (needs_argument name)
]
parse flags (s ∷ v ∷ rest) values = elim (read_arg flags s) [
  | ends ↦ ok values
  | wrong e ↦ err e
  | given name value ↦ set_flag flags name value values >>= (λ set. parse flags (v ∷ rest) set)
  | wanting name ↦ set_flag flags name v values >>= (λ set. parse flags rest set)
]

-- strconv.ParseInt of base 0 into 64 bits, and time.ParseDuration in nanoseconds.
pub record Numbers : Type 0 where
  pub parse_int : String → Option ℤ
  pub parse_duration : String → Option ℤ

-- What strconv documents: a decimal text of an int64 that is not negative is read as that number.
abbrev pub ReadsDecimals : Numbers → Type 0
ReadsDecimals numbers = (n : ℕ) → n < 2 ^ 63 → numbers.parse_int (itoa n) ≡ some (pos n)

abbrev is_read : Option ℤ → Bool
is_read none = false
is_read (some n) = true

abbrev pub any_text : String → Bool
any_text text = true

abbrev pub a_number : Numbers → String → Bool
a_number numbers text = is_read (numbers.parse_int text)

abbrev pub a_duration : Numbers → String → Bool
a_duration numbers text = is_read (numbers.parse_duration text)

abbrev or_default : ℤ → Option ℤ → ℤ
or_default fallback none = fallback
or_default fallback (some n) = n

-- The values of the flags, which keep their defaults where they are not set.
abbrev pub text_of : Map String → String → String → String
text_of values name fallback = elim (lookup values name) [ none ↦ fallback | some text ↦ text ]

abbrev pub number_of : Numbers → Map String → String → ℤ → ℤ
number_of numbers values name fallback = elim (lookup values name) [
  | none ↦ fallback
  | some text ↦ or_default fallback (numbers.parse_int text)
]

abbrev pub duration_of : Numbers → Map String → String → ℤ → ℤ
duration_of numbers values name fallback = elim (lookup values name) [
  | none ↦ fallback
  | some text ↦ or_default fallback (numbers.parse_duration text)
]

-- A request for help is no error, and nothing is started.
abbrev pub after_flags :
    {E A : Type 0}
    → (FlagError → E)
    → (Map String → Result E A)
    → Result FlagError (Map String)
    → Result E (Option A)
after_flags failed start (err help_requested) = ok none
after_flags failed start (err (bad_syntax t)) = err (failed (bad_syntax t))
after_flags failed start (err (not_defined t)) = err (failed (not_defined t))
after_flags failed start (err (needs_argument t)) = err (failed (needs_argument t))
after_flags failed start (err (invalid_value n t)) = err (failed (invalid_value n t))
after_flags failed start (ok values) = start values >>= (λ a. ok (some a))
