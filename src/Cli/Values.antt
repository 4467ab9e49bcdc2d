-- ===== src/Cli/Values.antt =====
-- pkg/cli/gpu_create.go: the options of create and the values that it gives the charts.
use sims.Prelude.{◌^◌, String, Bool, true, false, if◌then◌else◌, ◌==◌}
use sims.Prelude.Int.{ℤ, quot}
use sims.Text.{is_empty, replace_all}
use sims.Helm.Actions.{Value, str, num, tree, Fields, end, field}

pub record CreateOpts : Type 0 where
  pub vendor : String
  pub name : String
  pub workers : ℤ
  pub gpus_per_worker : ℤ
  pub k8s_version : String
  pub with_monitoring : Bool
  pub taint : Bool
  pub config_path : String
  pub product_name : String
  pub gpu_memory_bytes : ℤ
  pub mig_profile : String
  pub partition_mode : String
  pub partition_count : ℤ
  pub default_utilization : String

-- m[k] = v
unfoldable pub set : Fields → String → Value → Fields
set end k v = field k v end
set (field j w m) k v = if j == k then field k v m else field j w (set m k v)

-- len(m) > 0
abbrev pub has_fields : Fields → Bool
has_fields end = false
has_fields (field k v m) = true

-- strings.ReplaceAll(o.productName, " ", "-")
abbrev pub gpu_product : CreateOpts → String
gpu_product o = replace_all o.product_name 0x20 "-"

-- o.gpuMemoryBytes / (1 << 20)
abbrev pub memory_mib : CreateOpts → ℤ
memory_mib o = quot o.gpu_memory_bytes (2 ^ 20)

-- The product and the memory, where a product is known.
abbrev pub with_product : CreateOpts → Fields → Fields
with_product o m =
    if is_empty o.product_name
    then m
    else set (set m "gpuProduct" (str (gpu_product o))) "gpuMemory" (num (memory_mib o))

unfoldable pub nvidia_pool : CreateOpts → Fields
unfolding set
nvidia_pool o = with_product o (set end "gpuCount" (num o.gpus_per_worker))

unfoldable pub dcgm_extras : CreateOpts → Fields
unfolding set
dcgm_extras o =
    let product =
      if is_empty o.product_name
      then end
      else set (set end "gpusPerNode" (num o.gpus_per_worker)) "productName" (str o.product_name) in
    if is_empty o.mig_profile then product else set product "migProfile" (str o.mig_profile)

unfoldable pub build_nvidia_values : CreateOpts → Value
unfolding set nvidia_pool dcgm_extras
build_nvidia_values o =
    let vals = with_product o (set end "gpusPerNode" (num o.gpus_per_worker)) in
    let extras = dcgm_extras o in
    let with_extras =
      if has_fields extras then set vals "fake-dcgm-extras" (tree extras) else vals in
    tree (
      set with_extras "fake-gpu-operator" (
        tree (
          set end "topology"
            (tree (set end "nodePools" (tree (set end "default" (tree (nvidia_pool o)))))))))

-- The product and the memory in bytes, where a product is known.
abbrev pub with_amd_product : CreateOpts → Fields → Fields
with_amd_product o m =
    if is_empty o.product_name
    then m
    else set (set m "productName" (str o.product_name)) "gpuMemoryBytes" (num o.gpu_memory_bytes)

abbrev pub with_partition : CreateOpts → Fields → Fields
with_partition o m =
    if is_empty o.partition_mode
    then m
    else set m "computePartition"
        (tree (set (set end "mode" (str o.partition_mode)) "count" (num o.partition_count)))

abbrev pub with_utilization : CreateOpts → Fields → Fields
with_utilization o m =
    if is_empty o.default_utilization
    then m
    else set m "defaultUtilization" (str o.default_utilization)

unfoldable pub rocm_values : CreateOpts → Fields
unfolding set
rocm_values o =
    with_utilization o
      (with_partition o (with_amd_product o (set end "gpusPerNode" (num o.gpus_per_worker))))

unfoldable pub build_amd_values : CreateOpts → Value
unfolding set rocm_values
build_amd_values o = tree (
    set (with_amd_product o (set end "gpusPerNode" (num o.gpus_per_worker)))
      "fake-rocm-gpu-operator" (tree (rocm_values o)))
