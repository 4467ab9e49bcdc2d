-- ===== src/Rocm/Metrics.antt =====
-- operators/fake-rocm-gpu-operator/pkg/metrics/registry.go: the series that a scrape emits. Prometheus
-- itself is not modelled: a metric is its descriptor's name, its value and its label values.
pub mod Emitted
use sims.Prelude.{ℕ, String, List, [], ◌∷◌, concat_map}
use sims.Prelude.Int.{pos}
use sims.Prelude.Float.{Float64}

abbrev pub label_names : List String
label_names =
    "gpu_id" ∷ "serial_number" ∷ "card_series" ∷ "card_model" ∷ "hostname" ∷ "pod" ∷ "namespace"
    ∷ "container" ∷ "partition_mode" ∷ "partition_id" ∷ []

pub record Snapshot (fl : Float64) : Type 0 where
  pub gpu_id : String
  pub serial_number : String
  pub card_series : String
  pub card_model : String
  pub hostname : String
  pub pod : String
  pub namespace : String
  pub container : String
  pub partition_mode : String
  pub partition_id : String
  pub junction_temp : fl.F
  pub package_power : fl.F
  pub gfx_activity : fl.F
  pub used_vram : fl.F
  pub total_vram : fl.F
  pub clock_gfx : fl.F
  pub voltage : fl.F
  pub fan_speed : fl.F
  pub pcie_bandwidth : fl.F
  pub health : ℕ

pub record Desc : Type 0 where
  pub fq_name : String
  pub help : String
  pub labels : List String

abbrev desc : String → String → Desc
desc name help = record { fq_name = name; help = help; labels = label_names }

-- The descriptors, in the order of allDescs.
unfoldable pub all_descs : List Desc
all_descs =
    desc "amd_gpu_junction_temperature" "GPU junction temperature in degrees Celsius."
    ∷ desc "amd_gpu_package_power" "GPU package power draw in Watts."
    ∷ desc "amd_gpu_gfx_activity" "GPU graphics engine activity, percent."
    ∷ desc "amd_gpu_used_vram" "GPU used video memory in bytes."
    ∷ desc "amd_gpu_total_vram" "GPU total video memory in bytes."
    ∷ desc "amd_gpu_health" "GPU health state (1 = healthy, 0 = unhealthy)."
    ∷ desc "amd_gpu_clock_gfx" "GPU graphics clock frequency in MHz."
    ∷ desc "amd_gpu_voltage" "GPU core voltage in millivolts."
    ∷ desc "amd_gpu_fan_speed" "GPU fan speed, percent of max."
    ∷ desc "amd_pcie_bandwidth" "GPU PCIe bandwidth in MB/s."
    ∷ []

pub record Metric (fl : Float64) : Type 0 where
  pub fq_name : String
  pub value : fl.F
  pub label_values : List String

module _ (fl : Float64) where
  -- The label values of a snapshot, in the order of `label_names`.
  abbrev pub labels_of : Snapshot fl → List String
  labels_of s =
      s.gpu_id ∷ s.serial_number ∷ s.card_series ∷ s.card_model ∷ s.hostname ∷ s.pod ∷ s.namespace
      ∷ s.container ∷ s.partition_mode ∷ s.partition_id ∷ []

  abbrev metric : Snapshot fl → String → fl.F → Metric fl
  metric s name value = record { fq_name = name; value = value; label_values = labels_of s }

  unfoldable pub metrics_of : Snapshot fl → List (Metric fl)
  metrics_of s =
      metric s "amd_gpu_junction_temperature" s.junction_temp
      ∷ metric s "amd_gpu_package_power" s.package_power
      ∷ metric s "amd_gpu_gfx_activity" s.gfx_activity
      ∷ metric s "amd_gpu_used_vram" s.used_vram
      ∷ metric s "amd_gpu_total_vram" s.total_vram
      ∷ metric s "amd_gpu_health" (fl.of_ℤ (pos s.health))
      ∷ metric s "amd_gpu_clock_gfx" s.clock_gfx
      ∷ metric s "amd_gpu_voltage" s.voltage
      ∷ metric s "amd_gpu_fan_speed" s.fan_speed
      ∷ metric s "amd_pcie_bandwidth" s.pcie_bandwidth
      ∷ []

  -- Collect, on what the sampler returns.
  unfoldable pub collect : List (Snapshot fl) → List (Metric fl)
  unfolding metrics_of
  collect snapshots = concat_map metrics_of snapshots
