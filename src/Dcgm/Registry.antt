-- ===== src/Dcgm/Registry.antt =====
-- operators/fake-dcgm-extras/pkg/dcgm/registry.go: the series that a scrape emits. Prometheus itself is
-- not modelled: a metric is its descriptor's name, its value and its label values.
use sims.Prelude.{String, List, [], ◌∷◌, concat_map}
use sims.Prelude.Float.{Float64}

abbrev pub label_names : List String
label_names =
    "gpu" ∷ "UUID" ∷ "device" ∷ "modelName" ∷ "Hostname" ∷ "migProfile" ∷ "pod" ∷ "namespace"
    ∷ "container" ∷ []

pub record Snapshot (fl : Float64) : Type 0 where
  pub gpu : String
  pub uuid : String
  pub device : String
  pub model_name : String
  pub mig_profile : String
  pub hostname : String
  pub pod : String
  pub namespace : String
  pub container : String
  pub gpu_temp : fl.F
  pub power_usage : fl.F
  pub sm_clock : fl.F
  pub mem_clock : fl.F
  pub pcie_tx_throughput : fl.F
  pub pcie_rx_throughput : fl.F
  pub fan_speed : fl.F
  pub ecc_sbe_total : fl.F
  pub ecc_dbe_total : fl.F
  pub tensor_pipe_active : fl.F

pub record Desc : Type 0 where
  pub fq_name : String
  pub help : String
  pub labels : List String

abbrev desc : String → String → Desc
desc name help = record { fq_name = name; help = help; labels = label_names }

-- The descriptors of New, in the order of allDescs.
unfoldable pub all_descs : List Desc
all_descs =
    desc "DCGM_FI_DEV_GPU_TEMP" "GPU temperature in degrees Celsius."
    ∷ desc "DCGM_FI_DEV_POWER_USAGE" "Power draw in Watts."
    ∷ desc "DCGM_FI_DEV_SM_CLOCK" "SM (graphics) clock in MHz."
    ∷ desc "DCGM_FI_DEV_MEM_CLOCK" "Memory clock in MHz."
    ∷ desc "DCGM_FI_DEV_PCIE_TX_THROUGHPUT" "PCIe transmit throughput in KB/s."
    ∷ desc "DCGM_FI_DEV_PCIE_RX_THROUGHPUT" "PCIe receive throughput in KB/s."
    ∷ desc "DCGM_FI_DEV_FAN_SPEED" "Fan speed as percent of max."
    ∷ desc "DCGM_FI_DEV_ECC_SBE_VOL_TOTAL" "ECC single-bit volatile errors total (cumulative)."
    ∷ desc "DCGM_FI_DEV_ECC_DBE_VOL_TOTAL" "ECC double-bit volatile errors total (cumulative)."
    ∷ desc "DCGM_FI_PROF_PIPE_TENSOR_ACTIVE"
        "Fraction of cycles the tensor (HMMA) pipe was active, [0, 1]."
    ∷ []

pub record Metric (fl : Float64) : Type 0 where
  pub fq_name : String
  pub value : fl.F
  pub label_values : List String

module _ (fl : Float64) where
  -- The label values of a snapshot, in the order of `label_names`.
  abbrev pub labels_of : Snapshot fl → List String
  labels_of s =
      s.gpu ∷ s.uuid ∷ s.device ∷ s.model_name ∷ s.hostname ∷ s.mig_profile ∷ s.pod ∷ s.namespace
      ∷ s.container ∷ []

  abbrev metric : Snapshot fl → String → fl.F → Metric fl
  metric s name value = record { fq_name = name; value = value; label_values = labels_of s }

  unfoldable pub metrics_of : Snapshot fl → List (Metric fl)
  metrics_of s =
      metric s "DCGM_FI_DEV_GPU_TEMP" s.gpu_temp
      ∷ metric s "DCGM_FI_DEV_POWER_USAGE" s.power_usage
      ∷ metric s "DCGM_FI_DEV_SM_CLOCK" s.sm_clock
      ∷ metric s "DCGM_FI_DEV_MEM_CLOCK" s.mem_clock
      ∷ metric s "DCGM_FI_DEV_PCIE_TX_THROUGHPUT" s.pcie_tx_throughput
      ∷ metric s "DCGM_FI_DEV_PCIE_RX_THROUGHPUT" s.pcie_rx_throughput
      ∷ metric s "DCGM_FI_DEV_FAN_SPEED" s.fan_speed
      ∷ metric s "DCGM_FI_DEV_ECC_SBE_VOL_TOTAL" s.ecc_sbe_total
      ∷ metric s "DCGM_FI_DEV_ECC_DBE_VOL_TOTAL" s.ecc_dbe_total
      ∷ metric s "DCGM_FI_PROF_PIPE_TENSOR_ACTIVE" s.tensor_pipe_active
      ∷ []

  -- Collect, on what the sampler returns.
  unfoldable pub collect : List (Snapshot fl) → List (Metric fl)
  unfolding metrics_of
  collect snapshots = concat_map metrics_of snapshots
