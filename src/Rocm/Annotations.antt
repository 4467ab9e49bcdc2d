-- ===== src/Rocm/Annotations.antt =====
-- operators/fake-rocm-gpu-operator/pkg/annotations/parse.go: the utilization annotation of a pod.
use sims.Prelude.{String, Bool, ◌||◌, Option, none, some, if◌then◌else◌, not}
use sims.Prelude.Float.{Float64}
use sims.Prelude.Results.{Result, ok, err, ◌>>=◌, ◌>>◌, guard, Call}
use sims.Text.{is_empty, trim_space}
use sims.Text.Split.{split_2}

abbrev pub utilization_annotation : String
utilization_annotation = "sims.io/simulated-gpu-utilization"

abbrev pub default_utilization_range : String
default_utilization_range = "5-15"

pub record Range (fl : Float64) : Type 0 where
  pub low : fl.F
  pub high : fl.F

pub data RangeError : Type 0 where
  not_a_range : String → RangeError
  bad_low : String → RangeError
  bad_high : String → RangeError
  out_of_bounds : RangeError

module _ (fl : Float64) where
  -- A bound of the text, trimmed and read as a float.
  abbrev pub bound : (String → RangeError) → String → Result RangeError fl.F
  bound e s = elim (fl.parse_float (trim_space s)) [ none ↦ err (e s) | some x ↦ ok x ]

  -- low < 0 || high > 100 || low > high
  abbrev pub is_bad : fl.F → fl.F → Bool
  is_bad low high = fl.lt low (fl.lit 0 0) || fl.lt (fl.lit 100 0) high || fl.lt high low

  abbrev pub check_range : fl.F → fl.F → Result RangeError (Range fl)
  check_range low high = do
    guard (not (is_bad low high)) out_of_bounds
    ok (record { low = low; high = high })

  abbrev pub parse_parts : String → Option (String × String) → Result RangeError (Range fl)
  parse_parts s none = err (not_a_range s)
  parse_parts s (some (a, b)) = do
    low ← bound bad_low a
    high ← bound bad_high b
    check_range low high

  unfoldable pub parse_utilization_with_default : String → String → Result RangeError (Range fl)
  parse_utilization_with_default s fallback =
      let t = if is_empty s then fallback else s in parse_parts t (split_2 b'-' t)

  unfoldable pub parse_utilization : String → Result RangeError (Range fl)
  unfolding parse_utilization_with_default
  parse_utilization s = parse_utilization_with_default s default_utilization_range

  -- `draw` is rng.Float64, on the state of the generator.
  unfoldable pub sample : {R : Type 0} → Call R fl.F → Range fl → Call R fl.F
  sample draw r rng =
      let (u, rng') = draw rng in
      if fl.eq r.high r.low
      then (r.low, rng)
      else (fl.add r.low (fl.mul u (fl.sub r.high r.low)), rng')
