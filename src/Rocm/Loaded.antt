-- ===== src/Rocm/Loaded.antt =====
-- operators/fake-rocm-gpu-operator/pkg/simulate/gpu.go and pkg/annotations/parse.go: the readings of a
-- GPU follow the utilization, and the utilization the range.
use sims.Prelude.{ℕ, ◌≤◌, ◌<◌, true, false, if◌then◌else◌, ◌≡◌, arith, inl, inr, Bool-cases}
use sims.Prelude.Int.{pos, negsuc}
use sims.Prelude.Float.{Float64, Ieee}
use sims.Prelude.Results.{Call}
use sims.Rocm.Simulate.{Gpu, Sample, clamp, readings, sample_loaded}

module _ (fl : Float64) (ieee : Ieee fl) where
  open fl use {F, lit, of_ℤ, add, mul, div, lt, le}
  open ieee use {
    le_trans, le_refl, lt_total, lit_le, add_lit, add_small, mul_lit, div_lit, zero_div, self_div,
    mul_int,
  }

  -- 0 ≤ x ≤ 100
  abbrev pub IsPercent : F → Type 0
  IsPercent x = (le (lit 0 0) x ≡ true) × (le x (lit 100 0) ≡ true)

  lit_self : (n : ℕ) → le (lit n 0) (lit n 0) ≡ true
  lit_self n = lit_le n n (omega arith)

  not_lt : (a b : F) → le a a ≡ true → le b b ≡ true → lt a b ≡ false → le b a ≡ true
  not_lt a b ra rb h = ground (arith, lt_total a b ra rb)

  -- Whatever number the utilization is, the clamp brings it into 0 to 100.
  clamp-IsPercent : (u : F) → le u u ≡ true → IsPercent (clamp fl u)
  unfolding clamp
  clamp-IsPercent u number = elim (Bool-cases (lt u (lit 0 0))) [
    | inl below ↦ rw below (under (lit 0 0) (lit_self 0) (lit_self 0))
    | inr above ↦ rw above (under u number (not_lt u (lit 0 0) number (lit_self 0) above))
  ]
    where
      under :
          (x : F)
          → le x x ≡ true
          → le (lit 0 0) x ≡ true
          → IsPercent (if lt (lit 100 0) x then lit 100 0 else x)
      under x nx low = elim (Bool-cases (lt (lit 100 0) x)) [
        | inl over ↦ rw over (lit_le 0 100 (omega arith), lit_self 100)
        | inr within ↦ rw within (low, not_lt (lit 100 0) x (lit_self 100) nx within)
      ]

  pub clamp_of_percent : (u : F) → IsPercent u → clamp fl u ≡ u
  unfolding clamp
  clamp_of_percent u h = ground (
    arith,
    lt_total u (lit 0 0) (le_refl (lit 0 0) u h.0).1 (lit_self 0),
    lt_total (lit 100 0) u (lit_self 100) (le_refl (lit 0 0) u h.0).1,
  )

  -- Every reading of `a` is at most that of `b`.
  pub record IsBelow (a b : Sample fl) : Type 0 where
    pub util : le a.util b.util ≡ true
    pub junction_temp : le a.junction_temp b.junction_temp ≡ true
    pub package_power : le a.package_power b.package_power ≡ true
    pub gfx_activity : le a.gfx_activity b.gfx_activity ≡ true
    pub used_vram : le a.used_vram b.used_vram ≡ true
    pub clock_gfx : le a.clock_gfx b.clock_gfx ≡ true
    pub voltage : le a.voltage b.voltage ≡ true
    pub fan_speed : le a.fan_speed b.fan_speed ≡ true
    pub pcie_bandwidth : le a.pcie_bandwidth b.pcie_bandwidth ≡ true

  scaled :
      (m m' k : ℕ) (u v : F)
      → 0 < m
      → k ≤ 3
      → le u v ≡ true
      → le (add (lit m' 0) (mul u (lit m k))) (add (lit m' 0) (mul v (lit m k))) ≡ true
  scaled m m' k u v p q h = add_lit m' 0 (mul u (lit m k)) (mul v (lit m k)) (mul_lit m k u v p q h)

  -- A busier GPU reads no lower: with the same jitter between -1 and 1, a utilization from 0 to 100
  -- that is at least another one gives readings that are all at least as high, for a GPU whose memory
  -- is not negative.
  pub readings_follow_utilization :
      (g : Gpu) (bytes : ℕ) (u v jitter : F)
      → g.memory_total ≡ pos bytes
      → IsPercent u
      → IsPercent v
      → le u v ≡ true
      → le (of_ℤ (negsuc 0)) jitter ≡ true
      → le jitter (lit 1 0) ≡ true
      → IsBelow (readings fl g u jitter) (readings fl g v jitter)
  unfolding readings
  readings_follow_utilization g bytes u v jitter e pu pv h j1 j2 = record {
    util = h;
    junction_temp = add_small _ _ jitter (scaled 55 40 2 u v (omega arith) (omega arith) h) j1 j2;
    package_power = scaled 25 50 1 u v (omega arith) (omega arith) h;
    gfx_activity = h;
    used_vram = rw e (mul_lit 8 1 _ _ (omega arith) (omega arith) filled);
    clock_gfx = scaled 12 500 0 u v (omega arith) (omega arith) h;
    voltage = scaled 4 800 0 u v (omega arith) (omega arith) h;
    fan_speed = scaled 6 20 1 u v (omega arith) (omega arith) h;
    pcie_bandwidth = scaled 80 100 0 u v (omega arith) (omega arith) h;
  }
    where
      from_zero : le (lit 0 0) (div u (lit 100 0)) ≡ true
      from_zero = rw (zero_div 100 (omega arith)) at (div_lit 100 (lit 0 0) u (omega arith) pu.0)

      to_hundred : le (div v (lit 100 0)) (lit 100 0) ≡ true
      to_hundred =
          le_trans _ (lit 1 0) _
            (rw (self_div 100 (omega arith)) at (div_lit 100 v (lit 100 0) (omega arith) pv.1))
            (lit_le 1 100 (omega arith))

      filled :
          le
            (mul (div u (lit 100 0)) (of_ℤ (pos bytes)))
            (mul (div v (lit 100 0)) (of_ℤ (pos bytes)))
          ≡ true
      filled =
          mul_int bytes (div u (lit 100 0)) (div v (lit 100 0)) from_zero
            (div_lit 100 u v (omega arith) h) to_hundred

  -- A loaded GPU reports an activity of 0 to 100 percent, whatever number the utilization was and
  -- whatever was drawn.
  pub loaded_activity :
      {R : Type 0} (draw : Call R F) (g : Gpu) (u : F) (rng : R)
      → le u u ≡ true
      → IsPercent (sample_loaded fl draw g u rng).0.gfx_activity
  unfolding sample_loaded readings
  loaded_activity draw g u rng number = clamp-IsPercent u number

  -- A loaded GPU reports a utilization of 0 to 100 percent as it is, whatever was drawn.
  pub loaded_activity_exact :
      {R : Type 0} (draw : Call R F) (g : Gpu) (u : F) (rng : R)
      → IsPercent u
      → (sample_loaded fl draw g u rng).0.gfx_activity ≡ u
  unfolding sample_loaded readings
  loaded_activity_exact draw g u rng h = clamp_of_percent u h
