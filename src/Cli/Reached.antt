-- ===== src/Cli/Reached.antt =====
-- pkg/cli/gpu_create.go: what of a configuration file reaches the charts.
use sims.Prelude.{
  ◌^◌, String, Bool, true, false, List, [], ◌∷◌, Option, none, some, if◌then◌else◌, ◌==◌, ◌≡◌, refl,
  ap, sym, ◌∙◌,
}
use sims.Prelude.Int.{ℤ, quot}
use sims.Prelude.Maps.{lookup}
use sims.Text.{is_empty}
use sims.Helm.Actions.{Value, str, num, tree, Fields, end, field}
use sims.Simsconfig.Types.{SimsConfig}
use sims.Simsconfig.Families.{FamilyInfo, families}
use sims.Cli.Values.{
  CreateOpts, set, build_amd_values, build_nvidia_values, rocm_values, nvidia_pool, dcgm_extras,
}
use sims.Cli.Create.{configured, with_family}

-- The value at a path of keys, as a chart's template reads it.
abbrev mutual
  pub at : Value → List String → Option Value
  at (str s) [] = some (str s)
  at (str s) (k ∷ ks) = none
  at (num n) [] = some (num n)
  at (num n) (k ∷ ks) = none
  at (tree m) [] = some (tree m)
  at (tree m) (k ∷ ks) = at_field m k ks

  pub at_field : Fields → String → List String → Option Value
  at_field end k ks = none
  at_field (field j v m) k ks = if j == k then at v ks else at_field m k ks

-- A text that is left out where it is empty.
abbrev pub given : String → Option Value
given s = if is_empty s then none else some (str s)

abbrev pub given_with : String → ℤ → Option Value
given_with s n = if is_empty s then none else some (num n)

-- The product of the family that the file names, where it is known.
abbrev pub product_of : SimsConfig → String
product_of cfg = elim (lookup families cfg.gpu.family) [ none ↦ "" | some fam ↦ fam.product_name ]

-- The values of the chart of an AMD cluster.
abbrev pub AmdHolds : Value → CreateOpts → Type 0
AmdHolds v o =
    (at v ("gpusPerNode" ∷ []) ≡ some (num o.gpus_per_worker))
    × (at v ("fake-rocm-gpu-operator" ∷ "gpusPerNode" ∷ []) ≡ some (num o.gpus_per_worker))
    × (at v ("fake-rocm-gpu-operator" ∷ "productName" ∷ []) ≡ given o.product_name)
    × (at v ("fake-rocm-gpu-operator" ∷ "gpuMemoryBytes" ∷ [])
        ≡ given_with o.product_name o.gpu_memory_bytes)
    × (at v ("fake-rocm-gpu-operator" ∷ "computePartition" ∷ "mode" ∷ []) ≡ given o.partition_mode)
    × (at v ("fake-rocm-gpu-operator" ∷ "computePartition" ∷ "count" ∷ [])
        ≡ given_with o.partition_mode o.partition_count)
    × (at v ("fake-rocm-gpu-operator" ∷ "defaultUtilization" ∷ []) ≡ given o.default_utilization)

-- The values of the chart of an NVIDIA cluster.
abbrev pub NvidiaHolds : Value → CreateOpts → Type 0
NvidiaHolds v o =
    let pool = λ (key : String).
      at v ("fake-gpu-operator" ∷ "topology" ∷ "nodePools" ∷ "default" ∷ key ∷ []) in
    (pool "gpuCount" ≡ some (num o.gpus_per_worker))
    × (pool "gpuProduct" ≡ at v ("gpuProduct" ∷ []))
    × (pool "gpuMemory" ≡ given_with o.product_name (quot o.gpu_memory_bytes (2 ^ 20)))
    × (at v ("gpusPerNode" ∷ []) ≡ some (num o.gpus_per_worker))
    × (at v ("fake-dcgm-extras" ∷ "productName" ∷ []) ≡ given o.product_name)
    × (at v ("fake-dcgm-extras" ∷ "gpusPerNode" ∷ []) ≡ given_with o.product_name o.gpus_per_worker)
    × (at v ("fake-dcgm-extras" ∷ "migProfile" ∷ []) ≡ given o.mig_profile)

amd_values_hold : (o : CreateOpts) → AmdHolds (build_amd_values o) o
unfolding build_amd_values rocm_values set
amd_values_hold o =
    cases (is_empty o.product_name) (is_empty o.partition_mode) (is_empty o.default_utilization)
      refl refl refl
  where
    cases :
        (a b c : Bool)
        → is_empty o.product_name ≡ a
        → is_empty o.partition_mode ≡ b
        → is_empty o.default_utilization ≡ c
        → AmdHolds (build_amd_values o) o
    cases true true true p q r = rw (p, q, r) (refl, refl, refl, refl, refl, refl, refl)
    cases true true false p q r = rw (p, q, r) (refl, refl, refl, refl, refl, refl, refl)
    cases true false true p q r = rw (p, q, r) (refl, refl, refl, refl, refl, refl, refl)
    cases true false false p q r = rw (p, q, r) (refl, refl, refl, refl, refl, refl, refl)
    cases false true true p q r = rw (p, q, r) (refl, refl, refl, refl, refl, refl, refl)
    cases false true false p q r = rw (p, q, r) (refl, refl, refl, refl, refl, refl, refl)
    cases false false true p q r = rw (p, q, r) (refl, refl, refl, refl, refl, refl, refl)
    cases false false false p q r = rw (p, q, r) (refl, refl, refl, refl, refl, refl, refl)

nvidia_values_hold : (o : CreateOpts) → NvidiaHolds (build_nvidia_values o) o
unfolding build_nvidia_values nvidia_pool dcgm_extras set
nvidia_values_hold o = cases (is_empty o.product_name) (is_empty o.mig_profile) refl refl
  where
    cases :
        (a b : Bool)
        → is_empty o.product_name ≡ a
        → is_empty o.mig_profile ≡ b
        → NvidiaHolds (build_nvidia_values o) o
    cases true true p q = rw (p, q) (refl, refl, refl, refl, refl, refl, refl)
    cases true false p q = rw (p, q) (refl, refl, refl, refl, refl, refl, refl)
    cases false true p q = rw (p, q) (refl, refl, refl, refl, refl, refl, refl)
    cases false false p q = rw (p, q) (refl, refl, refl, refl, refl, refl, refl)

-- What a file configures of the GPUs reaches the charts. Where the options name no product before the
-- file is applied, as those of the command do not, the chart of an AMD cluster gets the product of the
-- file's family, the partition mode and the default utilization of the file, and that of an NVIDIA
-- cluster the product and the MIG profile, each left out where the file has none; and the GPU operator
-- below each chart is given the number of GPUs of the chart.
pub config_reaches_charts :
    (changed : String → Bool) (cfg : SimsConfig) (o : CreateOpts)
    → o.product_name ≡ ""
    → let o' = configured changed cfg o in
      let amd = build_amd_values o' in
      let nvidia = build_nvidia_values o' in
      let rocm = λ (keys : List String). at amd ("fake-rocm-gpu-operator" ∷ keys) in
      (rocm ("productName" ∷ []) ≡ given (product_of cfg))
      × (rocm ("computePartition" ∷ "mode" ∷ []) ≡ given cfg.gpu.features.partition.mode)
      × (rocm ("defaultUtilization" ∷ []) ≡ given cfg.workload.default_utilization)
      × (rocm ("gpusPerNode" ∷ []) ≡ at amd ("gpusPerNode" ∷ []))
      × (at nvidia ("fake-dcgm-extras" ∷ "productName" ∷ []) ≡ given (product_of cfg))
      × (at nvidia ("fake-dcgm-extras" ∷ "migProfile" ∷ []) ≡ given cfg.gpu.features.mig)
      × (at nvidia ("fake-gpu-operator" ∷ "topology" ∷ "nodePools" ∷ "default" ∷ "gpuCount" ∷ [])
          ≡ at nvidia ("gpusPerNode" ∷ []))
unfolding configured
config_reaches_charts changed cfg o none_set =
    let o' = configured changed cfg o in
    let (top, sub, product, memory, mode, count, util) = amd_values_hold o' in
    let (pool, same, mem, all, name, extras, mig) = nvidia_values_hold o' in
    let family : o'.product_name ≡ product_of cfg =
      by_family _ (lookup families cfg.gpu.family) none_set in
    (
      product ∙ ap given family,
      mode,
      util,
      sub ∙ sym top,
      name ∙ ap given family,
      mig,
      pool ∙ sym all,
    )
  where
    by_family :
        (flags : CreateOpts) (f : Option FamilyInfo)
        → flags.product_name ≡ ""
        → (with_family cfg f flags).product_name
          ≡ elim f [ none ↦ "" | some fam ↦ fam.product_name ]
    by_family flags none unset = unset
    by_family flags (some fam) unset = refl
