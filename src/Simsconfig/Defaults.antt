-- ===== src/Simsconfig/Defaults.antt =====
-- pkg/simsconfig/load.go and families.go: what a parsed configuration is sure to hold.
use mathlib.Core.Path.{subst}
use sims.Prelude.{
  ℕ, zero, suc, String, Bool, true, false, some, ◌≡◌, refl, ◌⊎◌, inl, inr, arith, ◌==◌,
  if◌then◌else◌, Bool-cases, [], ◌∷◌,
}
use sims.Prelude.Int.{ℤ, pos, negsuc, is_zero}
use sims.Prelude.Maps.{Map, lookup}
use sims.Prelude.Results.{Result, ok, err, ◌>>◌, wrap, >>=-eq-ok}
use sims.Text.{is_empty, is_empty_iff}
use sims.Simsconfig.Types.{SimsConfig}
use sims.Simsconfig.Families.{FamilyInfo, families, apply_family_defaults, at_least_one}
use sims.Simsconfig.Load.{ConfigError, parse_failed, validate, parse}
use sims.Simsconfig.WellFormed.{IsWellFormed, validate-IsWellFormed}

-- A positive integer.
abbrev pub IsPositive : ℤ → Type 0
IsPositive n = (k : ℕ) × (n ≡ pos (suc k))

pub at_least_one-IsPositive : (n : ℤ) → IsPositive (at_least_one n)
at_least_one-IsPositive (pos zero) = (1, refl)
at_least_one-IsPositive (pos (suc n)) = (n, ground arith)
at_least_one-IsPositive (negsuc n) = (1, ground arith)

all_have_memory : Map FamilyInfo → Bool
all_have_memory [] = true
all_have_memory ((k, f) ∷ m) = if is_zero f.memory_bytes then false else all_have_memory m

every_family_has_memory : all_have_memory families ≡ true
unfolding all_have_memory families
every_family_has_memory = refl

lookup_has_memory :
    (m : Map FamilyInfo) (k : String) (f : FamilyInfo)
    → all_have_memory m ≡ true
    → lookup m k ≡ some f
    → is_zero f.memory_bytes ≡ false
unfolding all_have_memory lookup
lookup_has_memory [] k f h e = cc
lookup_has_memory ((j, g) ∷ m) k f h e = elim (Bool-cases (j == k)) [
  | inl here ↦ ground (arith, (rw here at e))
  | inr below ↦ lookup_has_memory m k f (ground arith) (rw below at e)
]

-- What the defaults leave alone keeps the configuration well formed.
defaults-IsWellFormed :
    (cfg : SimsConfig) → IsWellFormed cfg → IsWellFormed (apply_family_defaults cfg)
unfolding apply_family_defaults
defaults-IsWellFormed cfg w = elim (Bool-cases (is_empty cfg.gpu.family)) [
  | inl e ↦ rw e (record {
    version = w.version;
    kind = w.kind;
    vendor = w.vendor;
    family = w.family;
    mig = w.mig;
    partition = w.partition;
    mode = w.mode;
    count = w.count;
    utilization = w.utilization;
  })
  | inr e ↦ rw e (record {
    version = w.version;
    kind = w.kind;
    vendor = w.vendor;
    family = w.family;
    mig = w.mig;
    partition = w.partition;
    mode = w.mode;
    count = w.count;
    utilization = w.utilization;
  })
]

defaults-workers :
    (cfg : SimsConfig) → (apply_family_defaults cfg).workers ≡ at_least_one cfg.workers
unfolding apply_family_defaults
defaults-workers cfg = ground arith

defaults-per_worker :
    (cfg : SimsConfig)
    → (apply_family_defaults cfg).gpu.per_worker ≡ at_least_one cfg.gpu.per_worker
unfolding apply_family_defaults
defaults-per_worker cfg = ground arith

-- The memory of a GPU of a named family: that of the file, which is kept unless it is zero, or that of the
-- family, which is not zero.
abbrev pub HasMemory : SimsConfig → SimsConfig → Type 0
HasMemory c cfg =
    (c.gpu.family ≡ "")
    ⊎ (((is_zero c.gpu.memory_bytes ≡ false) × (cfg.gpu.memory_bytes ≡ c.gpu.memory_bytes))
        ⊎ ((f : FamilyInfo) × (lookup families c.gpu.family ≡ some f)
            × (is_zero c.gpu.memory_bytes ≡ true)
            × (is_zero f.memory_bytes ≡ false)
            × (cfg.gpu.memory_bytes ≡ f.memory_bytes)))

defaults-memory : (cfg : SimsConfig) → IsWellFormed cfg → HasMemory cfg (apply_family_defaults cfg)
unfolding apply_family_defaults
defaults-memory cfg w = elim (Bool-cases (is_empty cfg.gpu.family)) [
  | inl none_given ↦ inl ((is_empty_iff cfg.gpu.family).0 none_given)
  | inr given ↦ elim w.family [
    | inl e ↦ inl e
    | inr (f, known, same) ↦ inr (elim (Bool-cases (is_zero cfg.gpu.memory_bytes)) [
      | inl zero_given ↦ inr (
        f,
        known,
        zero_given,
        lookup_has_memory families cfg.gpu.family f every_family_has_memory known,
        rw (given, known, zero_given) refl,
      )
      | inr size_given ↦ inl (size_given, rw (given, known, size_given) refl)
    ])
  ]
]

finished :
    (c cfg : SimsConfig)
    → IsWellFormed c
    → ◌≡◌ {A = Result ConfigError SimsConfig} (ok (apply_family_defaults c)) (ok cfg)
    → IsWellFormed cfg × IsPositive cfg.workers × IsPositive cfg.gpu.per_worker × HasMemory c cfg
finished c cfg w e =
    let same : apply_family_defaults c ≡ cfg = cc in
    subst
      (λ (d : SimsConfig).
        IsWellFormed d × IsPositive d.workers × IsPositive d.gpu.per_worker × HasMemory c d)
      same
      (
        defaults-IsWellFormed c w,
        rw (defaults-workers c) (at_least_one-IsPositive c.workers),
        rw (defaults-per_worker c) (at_least_one-IsPositive c.gpu.per_worker),
        defaults-memory c w,
      )

decoded : (r : Result String SimsConfig) (c : SimsConfig) → wrap parse_failed r ≡ ok c → r ≡ ok c
decoded (ok x) c e = cc
decoded (err x) c e = cc

-- A configuration that the parser returns is well formed, and has at least one worker and at least one
-- GPU for each worker. The memory of a GPU of a named family is the one that the decoded text gives, whatever
-- its sign, unless that is zero; then it is the one of the family, which is not zero.
pub parse_ready :
    (unmarshal_strict : String → Result String SimsConfig) (text : String) (cfg : SimsConfig)
    → parse unmarshal_strict text ≡ ok cfg
    → IsWellFormed cfg
      × IsPositive cfg.workers
      × IsPositive cfg.gpu.per_worker
      × ((c : SimsConfig) × (unmarshal_strict text ≡ ok c) × HasMemory c cfg)
unfolding parse
parse_ready unmarshal_strict text cfg h =
    let (c, got, h1) =
      >>=-eq-ok (wrap parse_failed (unmarshal_strict text))
        (λ c. validate c >> ok (apply_family_defaults c)) h in
    let (u, checked, h2) = >>=-eq-ok (validate c) (λ _. ok (apply_family_defaults c)) h1 in
    let (formed, workers, gpus, memory) = finished c cfg (validate-IsWellFormed c checked) h2 in
    (formed, workers, gpus, (c, decoded (unmarshal_strict text) c got, memory))
