-- ===== src/Simsconfig/Load.antt =====
-- pkg/simsconfig/load.go: the checks of a configuration. Reading the file and the YAML parser are
-- parameters.
use sims.Prelude.{String, Bool, not, ◌&&◌, ◌||◌, Option, none, some, if◌then◌else◌, ◌==◌}
use sims.Prelude.Int.{ℤ, pos, ltb_ℤ, is_zero}
use sims.Prelude.Maps.{lookup}
use sims.Prelude.Results.{Result, ok, err, ◌>>=◌, ◌>>◌, guard, wrap}
use sims.Text.{is_empty}
use sims.Text.Decimal.{atoi}
use sims.Text.Split.{split_2}
use sims.Config.{vendor_nvidia, vendor_amd}
use sims.Simsconfig.Types.{SimsConfig, Features, api_version_v1, kind_config}
use sims.Simsconfig.Families.{FamilyInfo, families, apply_family_defaults}

pub data RangeError : Type 0 where
  not_a_range : String → RangeError
  bad_low : String → RangeError
  bad_high : String → RangeError
  out_of_bounds : ℤ → ℤ → RangeError
  inverted : ℤ → ℤ → RangeError

pub data ConfigError : Type 0 where
  bad_api_version : String → ConfigError
  bad_kind : String → ConfigError
  invalid_vendor : String → ConfigError
  unknown_family : String → ConfigError
  family_of_other_vendor : String → String → String → ConfigError
  mig_not_nvidia : String → ConfigError
  partition_not_amd : String → ConfigError
  bad_partition_mode : String → ConfigError
  bad_partition_count : ℤ → ConfigError
  bad_utilization : RangeError → ConfigError
  parse_failed : String → ConfigError
  read_failed : String → ConfigError

-- The integer of a bound, or the error that names it.
abbrev pub bound : (String → RangeError) → String → Result RangeError ℤ
bound e s = elim (atoi s) [ none ↦ err (e s) | some n ↦ ok n ]

-- The checks on the two parts of the text.
abbrev pub check_bounds : ℤ → ℤ → Result RangeError (Unit {0})
check_bounds lo hi = do
  guard (not (ltb_ℤ lo (pos 0) || ltb_ℤ (pos 100) lo || ltb_ℤ hi (pos 0) || ltb_ℤ (pos 100) hi))
      (out_of_bounds lo hi)
  guard (not (ltb_ℤ hi lo)) (inverted lo hi)

abbrev pub check_parts : String → Option (String × String) → Result RangeError (Unit {0})
check_parts s none = err (not_a_range s)
check_parts s (some (a, b)) = do lo ← bound bad_low a; hi ← bound bad_high b; check_bounds lo hi

unfoldable pub validate_util_range : String → Result RangeError (Unit {0})
validate_util_range s = check_parts s (split_2 b'-' s)

abbrev pub is_vendor : String → Bool
is_vendor v = v == vendor_nvidia || v == vendor_amd

abbrev pub check_found : SimsConfig → Option FamilyInfo → Result ConfigError (Unit {0})
check_found cfg none = err (unknown_family cfg.gpu.family)
check_found cfg (some fam) =
    guard (fam.vendor == cfg.vendor) (family_of_other_vendor cfg.gpu.family fam.vendor cfg.vendor)

-- `if cfg.GPU.Family != ""`
unfoldable pub check_family : SimsConfig → Result ConfigError (Unit {0})
check_family cfg =
    if is_empty cfg.gpu.family then ok tt else check_found cfg (lookup families cfg.gpu.family)

abbrev pub mig_allowed : String → Features → Bool
mig_allowed vendor f = is_empty f.mig || vendor == vendor_nvidia

abbrev pub partition_allowed : String → Features → Bool
partition_allowed vendor f =
    (is_empty f.partition.mode && is_zero f.partition.count) || vendor == vendor_amd

abbrev pub mode_allowed : String → Bool
mode_allowed m = is_empty m || m == "spx" || m == "cpx"

abbrev pub count_allowed : ℤ → Bool
count_allowed c = is_zero c || not (ltb_ℤ c (pos 1) || ltb_ℤ (pos 8) c)

-- The checks on the features of the GPU.
unfoldable pub check_features : String → Features → Result ConfigError (Unit {0})
check_features vendor f = do
  guard (mig_allowed vendor f) (mig_not_nvidia vendor)
  guard (partition_allowed vendor f) (partition_not_amd vendor)
  guard (mode_allowed f.partition.mode) (bad_partition_mode f.partition.mode)
  guard (count_allowed f.partition.count) (bad_partition_count f.partition.count)

-- `if u := cfg.Workload.DefaultUtilization; u != ""`
unfoldable pub check_utilization : String → Result ConfigError (Unit {0})
check_utilization u = if is_empty u then ok tt else wrap bad_utilization (validate_util_range u)

unfoldable pub validate : SimsConfig → Result ConfigError (Unit {0})
validate cfg = do
  guard (cfg.api_version == api_version_v1) (bad_api_version cfg.api_version)
  guard (cfg.kind == kind_config) (bad_kind cfg.kind)
  guard (is_vendor cfg.vendor) (invalid_vendor cfg.vendor)
  check_family cfg
  check_features cfg.vendor cfg.gpu.features
  check_utilization cfg.workload.default_utilization

module _ (unmarshal_strict : String → Result String SimsConfig) where
  unfoldable pub parse : String → Result ConfigError SimsConfig
  parse text = do
    cfg ← wrap parse_failed (unmarshal_strict text)
    validate cfg
    ok (apply_family_defaults cfg)

  -- `read_file` is os.ReadFile.
  unfoldable pub load : (String → Result String String) → String → Result ConfigError SimsConfig
  unfolding parse
  load read_file path = do text ← wrap read_failed (read_file path); parse text
