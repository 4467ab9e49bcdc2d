-- ===== src/Rocm/Simulate.antt =====
-- operators/fake-rocm-gpu-operator/pkg/simulate/gpu.go: the GPUs of a node and their readings.
use sims.Prelude.{ℕ, ◌+◌, ◌*◌, String, List, map, range, concat_map, if◌then◌else◌, ◌==◌, [], ◌∷◌}
use sims.Prelude.Int.{ℤ, pos, ltb_ℤ, to_ℕ, quot}
use sims.Prelude.Float.{Float64}
use sims.Prelude.Results.{Call}
use sims.Text.{append, concat}
use sims.Text.Decimal.{itoa, pad2}

abbrev pub partition_spx : String
partition_spx = "spx"

abbrev pub partition_cpx : String
partition_cpx = "cpx"

pub record Gpu : Type 0 where
  pub id : String
  pub serial_number : String
  pub card_series : String
  pub card_model : String
  pub memory_total : ℤ
  pub partition_mode : String
  pub partition_id : String

-- The mode and the count that the loops use.
unfoldable pub effective_mode : String → String
effective_mode mode = if mode == partition_cpx then mode else partition_spx

unfoldable pub effective_count : String → ℤ → ℕ
effective_count mode count =
    if mode == partition_cpx then (if ltb_ℤ count (pos 1) then 1 else to_ℕ count) else 1

abbrev pub gpu_id : ℕ → String
gpu_id n = append "gpu-" (itoa n)

abbrev pub gpu_at : String → String → ℤ → String → ℕ → ℕ → ℕ → Gpu
gpu_at hostname product memory mode count phys part = record {
  id = gpu_id (phys * count + part);
  serial_number = concat ("SIM-" ∷ hostname ∷ "-" ∷ pad2 phys ∷ "-p" ∷ itoa part ∷ []);
  card_series = product;
  card_model = product;
  memory_total = memory;
  partition_mode = mode;
  partition_id = itoa part;
}

-- The command line refuses a negative physical count, so the count is a natural number here.
unfoldable pub build_gpus : String → String → ℤ → ℕ → String → ℤ → List Gpu
unfolding effective_mode effective_count
build_gpus hostname product memory_bytes physical_count partition_mode partition_count =
    let mode = effective_mode partition_mode in
    let count = effective_count partition_mode partition_count in
    concat_map
      (λ phys.
        map (gpu_at hostname product (quot memory_bytes count) mode count phys) (range count))
      (range physical_count)

pub record Sample (fl : Float64) : Type 0 where
  pub util : fl.F
  pub junction_temp : fl.F
  pub package_power : fl.F
  pub gfx_activity : fl.F
  pub used_vram : fl.F
  pub total_vram : fl.F
  pub clock_gfx : fl.F
  pub voltage : fl.F
  pub fan_speed : fl.F
  pub pcie_bandwidth : fl.F
  pub health : ℕ

module _ (fl : Float64) where
  open fl use {F, lit, of_ℤ, add, sub, mul, div, lt}

  unfoldable pub sample_idle : Gpu → Sample fl
  sample_idle g = record {
    util = lit 0 0;
    junction_temp = lit 35 0;
    package_power = lit 30 0;
    gfx_activity = lit 0 0;
    used_vram = lit 0 0;
    total_vram = of_ℤ g.memory_total;
    clock_gfx = lit 500 0;
    voltage = lit 800 0;
    fan_speed = lit 20 0;
    pcie_bandwidth = lit 100 0;
    health = 1;
  }

  -- `if util < 0 { util = 0 }` and `if util > 100 { util = 100 }`
  unfoldable pub clamp : F → F
  clamp util =
      let floor = if lt util (lit 0 0) then lit 0 0 else util in
      if lt (lit 100 0) floor then lit 100 0 else floor

  -- The readings at a clamped utilization and a jitter.
  unfoldable pub readings : Gpu → F → F → Sample fl
  readings g util jitter = record {
    util = util;
    junction_temp = add (add (lit 40 0) (mul util (lit 55 2))) jitter;
    package_power = add (lit 50 0) (mul util (lit 25 1));
    gfx_activity = util;
    used_vram = mul (mul (div util (lit 100 0)) (of_ℤ g.memory_total)) (lit 8 1);
    total_vram = of_ℤ g.memory_total;
    clock_gfx = add (lit 500 0) (mul util (lit 12 0));
    voltage = add (lit 800 0) (mul util (lit 4 0));
    fan_speed = add (lit 20 0) (mul util (lit 6 1));
    pcie_bandwidth = add (lit 100 0) (mul util (lit 80 0));
    health = 1;
  }

  unfoldable pub sample_loaded : {R : Type 0} → Call R F → Gpu → F → Call R (Sample fl)
  unfolding clamp readings
  sample_loaded draw g util rng =
      let (u, rng') = draw rng in (readings g (clamp util) (sub (mul u (lit 2 0)) (lit 1 0)), rng')
