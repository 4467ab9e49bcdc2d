-- ===== src/Simsconfig/WellFormed.antt =====
-- pkg/simsconfig: which configurations are accepted, and what the defaults make of them.
use sims.Prelude.{
  ℕ, zero, suc, ◌≤◌, String, true, not, ◌||◌, some, ◌≡◌, refl, ◌⊎◌, ◌↔◌, inl, inr, arith, ◌==◌,
  eq_iff, Bool-cases, Option-cases,
}
use sims.Prelude.Int.{ℤ, pos, negsuc, is_zero, ltb_ℤ}
use sims.Prelude.Maps.{lookup}
use sims.Prelude.Results.{Result, ok, err, ◌>>◌, guard, wrap, >>=-eq-ok, guard-eq-ok, guard-passes}
use sims.Text.{is_empty, is_empty_iff}
use sims.Simsconfig.Types.{SimsConfig, Features, api_version_v1, kind_config}
use sims.Simsconfig.Families.{FamilyInfo, families}
use sims.Simsconfig.Load.{
  ConfigError, RangeError, mig_allowed, partition_allowed, mode_allowed, count_allowed,
  mig_not_nvidia, partition_not_amd, bad_partition_mode, bad_partition_count, bad_utilization,
  bad_api_version, bad_kind, invalid_vendor, validate, check_family, check_features,
  check_utilization, is_vendor, validate_util_range,
}
use sims.Simsconfig.Utilization.{
  IsUtilRange, validate_util_range-IsUtilRange, IsUtilRange-validate_util_range,
}

-- The rules of a SimsConfig file, as they are stated of the file and not of the checks.
pub record IsWellFormed (cfg : SimsConfig) : Type 0 where
  pub version : cfg.api_version ≡ "sims.io/v1"
  pub kind : cfg.kind ≡ "SimsConfig"
  pub vendor : (cfg.vendor ≡ "nvidia") ⊎ (cfg.vendor ≡ "amd")
  pub family :
      (cfg.gpu.family ≡ "")
      ⊎ ((f : FamilyInfo) × (lookup families cfg.gpu.family ≡ some f) × (f.vendor ≡ cfg.vendor))
  pub mig : (cfg.gpu.features.mig ≡ "") ⊎ (cfg.vendor ≡ "nvidia")
  pub partition :
      ((cfg.gpu.features.partition.mode ≡ "") × (cfg.gpu.features.partition.count ≡ pos 0))
      ⊎ (cfg.vendor ≡ "amd")
  pub mode :
      (cfg.gpu.features.partition.mode ≡ "")
      ⊎ ((cfg.gpu.features.partition.mode ≡ "spx") ⊎ (cfg.gpu.features.partition.mode ≡ "cpx"))
  pub count : (n : ℕ) × (cfg.gpu.features.partition.count ≡ pos n) × (n ≤ 8)
  pub utilization :
      (cfg.workload.default_utilization ≡ "") ⊎ IsUtilRange cfg.workload.default_utilization

check_family-rule :
    (cfg : SimsConfig)
    → check_family cfg ≡ ok tt
    → (cfg.gpu.family ≡ "")
      ⊎ ((f : FamilyInfo) × (lookup families cfg.gpu.family ≡ some f) × (f.vendor ≡ cfg.vendor))
unfolding check_family
check_family-rule cfg h = elim (Bool-cases (is_empty cfg.gpu.family)) [
  | inl none_given ↦ inl ((is_empty_iff cfg.gpu.family).0 none_given)
  | inr given ↦ elim (Option-cases (lookup families cfg.gpu.family)) [
    | inl unknown ↦ cc (rw (given, unknown) at h)
    | inr (f, known) ↦
        inr (f, known, (eq_iff f.vendor cfg.vendor).0 (ground (arith, (rw (given, known) at h))))
  ]
]

rule-check_family :
    (cfg : SimsConfig)
    → (cfg.gpu.family ≡ "")
      ⊎ ((f : FamilyInfo) × (lookup families cfg.gpu.family ≡ some f) × (f.vendor ≡ cfg.vendor))
    → check_family cfg ≡ ok tt
unfolding check_family
rule-check_family cfg (inl e) = rw ((is_empty_iff cfg.gpu.family).1 e) refl
rule-check_family cfg (inr (f, known, same)) = elim (Bool-cases (is_empty cfg.gpu.family)) [
  | inl none_given ↦ rw none_given refl
  | inr given ↦ rw (given, known, (eq_iff f.vendor cfg.vendor).1 same) refl
]

abbrev FeatureRules : String → Features → Type 0
FeatureRules v f =
    ((f.mig ≡ "") ⊎ (v ≡ "nvidia"))
    × (((f.partition.mode ≡ "") × (f.partition.count ≡ pos 0)) ⊎ (v ≡ "amd"))
    × ((f.partition.mode ≡ "") ⊎ ((f.partition.mode ≡ "spx") ⊎ (f.partition.mode ≡ "cpx")))
    × ((n : ℕ) × (f.partition.count ≡ pos n) × (n ≤ 8))

pub is_zero-pos : (n : ℤ) → is_zero n ≡ true → n ≡ pos 0
is_zero-pos (pos zero) h = refl
is_zero-pos (pos (suc n)) h = cc
is_zero-pos (negsuc n) h = cc

pub count_rule :
    (n : ℤ)
    → (is_zero n || not (ltb_ℤ n (pos 1) || ltb_ℤ (pos 8) n)) ≡ true
    → (k : ℕ) × (n ≡ pos k) × (k ≤ 8)
count_rule (pos zero) h = (0, refl, omega arith)
count_rule (pos (suc k)) h = (suc k, refl, ground arith)
count_rule (negsuc k) h = absurd (ground arith)

tests_of_features :
    (v : String) (f : Features)
    → check_features v f ≡ ok tt
    → (mig_allowed v f ≡ true)
      × (partition_allowed v f ≡ true)
      × (mode_allowed f.partition.mode ≡ true)
      × (count_allowed f.partition.count ≡ true)
unfolding check_features
tests_of_features v f h =
    let (g1, h1) = guard-eq-ok (mig_allowed v f) (mig_not_nvidia v) (rest1) h in
    let (g2, h2) = guard-eq-ok (partition_allowed v f) (partition_not_amd v) rest2 h1 in
    let (g3, h3) = guard-eq-ok (mode_allowed m) (bad_partition_mode m) rest3 h2 in
    (g1, g2, g3, guard-passes (count_allowed c) (bad_partition_count c) h3)
  where
    m : String
    m = f.partition.mode

    c : ℤ
    c = f.partition.count

    rest3 : Result ConfigError (Unit {0})
    rest3 = guard (count_allowed f.partition.count) (bad_partition_count f.partition.count)

    rest2 : Result ConfigError (Unit {0})
    rest2 = guard (mode_allowed f.partition.mode) (bad_partition_mode f.partition.mode) >> rest3

    rest1 : Result ConfigError (Unit {0})
    rest1 = guard (partition_allowed v f) (partition_not_amd v) >> rest2

check_features-rules : (v : String) (f : Features) → check_features v f ≡ ok tt → FeatureRules v f
check_features-rules v f h =
    let m = f.partition.mode in
    let (g1, g2, g3, g4) = tests_of_features v f h in
    (
      ground (arith, is_empty_iff f.mig, eq_iff v "nvidia"),
      ground (arith, is_empty_iff f.partition.mode, is_zero-pos f.partition.count, eq_iff v "amd"),
      ground (arith, is_empty_iff f.partition.mode, eq_iff m "spx", eq_iff m "cpx"),
      count_rule f.partition.count g4,
    )

count_test : (c : ℤ) (n : ℕ) → c ≡ pos n → n ≤ 8 → count_allowed c ≡ true
count_test (pos zero) n e h = refl
count_test (pos (suc k)) n e h = ground arith
count_test (negsuc k) n e h = cc

rules-check_features : (v : String) (f : Features) → FeatureRules v f → check_features v f ≡ ok tt
unfolding check_features
rules-check_features v f (mi, p, mo, (n, e, le)) =
    rw (mig_ok, partition_ok, mode_ok, count_test f.partition.count n e le) refl
  where
    m : String
    m = f.partition.mode

    mig_ok : mig_allowed v f ≡ true
    mig_ok = ground (arith, is_empty_iff f.mig, eq_iff v "nvidia")

    partition_ok : partition_allowed v f ≡ true
    partition_ok = ground (arith, is_empty_iff f.partition.mode, eq_iff v "amd")

    mode_ok : mode_allowed f.partition.mode ≡ true
    mode_ok = ground (
      arith,
      is_empty_iff f.partition.mode,
      eq_iff f.partition.mode "spx",
      eq_iff f.partition.mode "cpx",
    )

check_utilization-rule : (u : String) → check_utilization u ≡ ok tt → (u ≡ "") ⊎ IsUtilRange u
unfolding check_utilization
check_utilization-rule u h = elim (Bool-cases (is_empty u)) [
  | inl none_given ↦ inl ((is_empty_iff u).0 none_given)
  | inr given ↦
      inr (validate_util_range-IsUtilRange u (unwrap (validate_util_range u) (rw given at h)))
]
  where
    unwrap : (r : Result RangeError (Unit {0})) → wrap bad_utilization r ≡ ok tt → r ≡ ok tt
    unwrap (ok tt) q = refl
    unwrap (err e) q = cc

rule-check_utilization : (u : String) → (u ≡ "") ⊎ IsUtilRange u → check_utilization u ≡ ok tt
unfolding check_utilization
rule-check_utilization u (inl e) = rw ((is_empty_iff u).1 e) refl
rule-check_utilization u (inr r) = elim (Bool-cases (is_empty u)) [
  | inl none_given ↦ rw none_given refl
  | inr given ↦ rw (given, IsUtilRange-validate_util_range u r) refl
]

validate-tests :
    (cfg : SimsConfig)
    → validate cfg ≡ ok tt
    → ((cfg.api_version == api_version_v1) ≡ true)
      × ((cfg.kind == kind_config) ≡ true)
      × (is_vendor cfg.vendor ≡ true)
      × (check_family cfg ≡ ok tt)
      × (check_features cfg.vendor cfg.gpu.features ≡ ok tt)
      × (check_utilization cfg.workload.default_utilization ≡ ok tt)
unfolding validate
validate-tests cfg h =
    let (g1, h1) =
      guard-eq-ok (cfg.api_version == api_version_v1) (bad_api_version cfg.api_version) rest1 h in
    let (g2, h2) = guard-eq-ok (cfg.kind == kind_config) (bad_kind cfg.kind) rest2 h1 in
    let (g3, h3) = guard-eq-ok (is_vendor cfg.vendor) (invalid_vendor cfg.vendor) rest3 h2 in
    let (u, c4, h4) = >>=-eq-ok (check_family cfg) (λ _. rest4) h3 in
    let (w, c5, h5) = >>=-eq-ok (check_features cfg.vendor cfg.gpu.features) (λ _. rest5) h4 in
    (g1, g2, g3, c4, c5, h5)
  where
    rest5 : Result ConfigError (Unit {0})
    rest5 = check_utilization cfg.workload.default_utilization

    rest4 : Result ConfigError (Unit {0})
    rest4 = check_features cfg.vendor cfg.gpu.features >> rest5

    rest3 : Result ConfigError (Unit {0})
    rest3 = check_family cfg >> rest4

    rest2 : Result ConfigError (Unit {0})
    rest2 = guard (is_vendor cfg.vendor) (invalid_vendor cfg.vendor) >> rest3

    rest1 : Result ConfigError (Unit {0})
    rest1 = guard (cfg.kind == kind_config) (bad_kind cfg.kind) >> rest2

pub validate-IsWellFormed : (cfg : SimsConfig) → validate cfg ≡ ok tt → IsWellFormed cfg
validate-IsWellFormed cfg h =
    let (g1, g2, g3, c4, c5, c6) = validate-tests cfg h in
    let (mi, pa, mo, co) = check_features-rules cfg.vendor cfg.gpu.features c5 in
    record {
      version = (eq_iff cfg.api_version "sims.io/v1").0 g1;
      kind = (eq_iff cfg.kind "SimsConfig").0 g2;
      vendor = ground (arith, eq_iff cfg.vendor "nvidia", eq_iff cfg.vendor "amd");
      family = check_family-rule cfg c4;
      mig = mi;
      partition = pa;
      mode = mo;
      count = co;
      utilization = check_utilization-rule cfg.workload.default_utilization c6;
    }

IsWellFormed-validate : (cfg : SimsConfig) → IsWellFormed cfg → validate cfg ≡ ok tt
unfolding validate
IsWellFormed-validate cfg w =
    rw
      (
        (eq_iff cfg.api_version "sims.io/v1").1 w.version,
        (eq_iff cfg.kind "SimsConfig").1 w.kind,
        known_vendor,
        rule-check_family cfg w.family,
        rules-check_features cfg.vendor cfg.gpu.features (w.mig, w.partition, w.mode, w.count),
      )
      (rule-check_utilization cfg.workload.default_utilization w.utilization)
  where
    known_vendor : is_vendor cfg.vendor ≡ true
    known_vendor = ground (arith, eq_iff cfg.vendor "nvidia", eq_iff cfg.vendor "amd")

-- A configuration passes the checks exactly when it is well formed: the right version and kind, a
-- known vendor, a family of that vendor or none, MIG for NVIDIA and partitions for AMD only, a known
-- partition mode, a partition count of 0 to 8, and a utilization range or none.
pub validate_exact : (cfg : SimsConfig) → (validate cfg ≡ ok tt) ↔ IsWellFormed cfg
validate_exact cfg = (validate-IsWellFormed cfg, IsWellFormed-validate cfg)
