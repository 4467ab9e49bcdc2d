-- ===== src/Dcgm/Readings.antt =====
-- operators/fake-dcgm-extras/internal/exporter/sample.go: the utilization and the readings of a slot, and
-- those of operators/fake-rocm-gpu-operator/pkg/simulate/gpu.go, which they mirror.
use sims.Prelude.{
  String, Bool, true, false, ◌&&◌, Option, none, some, if◌then◌else◌, ◌≡◌, refl, arith,
}
use sims.Prelude.Float.{Float64, Ieee}
use sims.Prelude.Results.{Call}
use sims.Text.{trim_space}
use sims.Text.Split.{split_2}
use sims.Rocm.Simulate as Amd
use sims.Rocm.Loaded.{IsPercent, clamp_of_percent}
use sims.Dcgm.Registry.{Snapshot}
use sims.Dcgm.Sample.{checked, with_high, with_low, of_parts, util_range, loaded, fill_loaded}

module _ (fl : Float64) (ieee : Ieee fl) where
  open fl use {F, lit, of_ℤ, add, mul, div, le}
  open ieee use {lit_le, add_lit, add_small, mul_lit, div_lit}

  -- An ordered range in 0 to 100, which holds no NaN.
  abbrev pub IsRange : F × F → Type 0
  IsRange r = (le (lit 0 0) r.0 ≡ true) × (le r.0 r.1 ≡ true) × (le r.1 (lit 100 0) ≡ true)

  default-IsRange : IsRange (lit 5 0, lit 15 0)
  default-IsRange =
      (lit_le 0 5 (omega arith), lit_le 5 15 (omega arith), lit_le 15 100 (omega arith))

  checked-IsRange : (l h : F) → IsRange (checked fl l h)
  checked-IsRange l h = by_tests (le (lit 0 0) l) (le h (lit 100 0)) (le l h) refl refl refl
    where
      by_tests :
          (a b c : Bool)
          → le (lit 0 0) l ≡ a
          → le h (lit 100 0) ≡ b
          → le l h ≡ c
          → IsRange (if a && b && c then (l, h) else (lit 5 0, lit 15 0))
      by_tests true true true p q r = (p, r, q)
      by_tests false b c p q r = default-IsRange
      by_tests true false c p q r = default-IsRange
      by_tests true true false p q r = default-IsRange

  with_high-IsRange : (l : F) (o : Option F) → IsRange (with_high fl l o)
  with_high-IsRange l none = default-IsRange
  with_high-IsRange l (some h) = checked-IsRange l h

  with_low-IsRange : (high : String) (o : Option F) → IsRange (with_low fl high o)
  with_low-IsRange high none = default-IsRange
  with_low-IsRange high (some l) = with_high-IsRange l (fl.parse_float (trim_space high))

  of_parts-IsRange : (o : Option (String × String)) → IsRange (of_parts fl o)
  of_parts-IsRange none = default-IsRange
  of_parts-IsRange (some (low, high)) = with_low-IsRange high (fl.parse_float (trim_space low))

  -- Whatever the annotation of a pod says, a NaN too, the utilization is drawn from an ordered range
  -- in 0 to 100.
  pub util_range-IsRange : (raw : String) → IsRange (util_range fl raw)
  unfolding util_range
  util_range-IsRange raw = of_parts-IsRange (split_2 b'-' raw)

  -- The two simulations agree: with the same drawn number and a utilization of 0 to 100, the
  -- temperature, the power, the fan speed and the PCIe throughput of an NVIDIA slot are those of a
  -- loaded AMD GPU.
  pub fill_loaded_mirrors :
      {R : Type 0} (draw : Call R F) (s : Snapshot fl) (g : Amd.Gpu) (u : F) (rng : R)
      → IsPercent fl ieee u
      → let n = (fill_loaded fl draw s u rng).0 in
        let a = (Amd.sample_loaded fl draw g u rng).0 in
        (n.gpu_temp ≡ a.junction_temp)
        × (n.power_usage ≡ a.package_power)
        × (n.fan_speed ≡ a.fan_speed)
        × (n.pcie_tx_throughput ≡ a.pcie_bandwidth)
        × (n.pcie_rx_throughput ≡ a.pcie_bandwidth)
  unfolding fill_loaded loaded Amd.sample_loaded Amd.readings
  fill_loaded_mirrors draw s g u rng h =
      rw (clamp_of_percent fl ieee u h) (refl, refl, refl, refl, refl)
