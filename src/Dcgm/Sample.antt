-- ===== src/Dcgm/Sample.antt =====
-- operators/fake-dcgm-extras/internal/exporter/sample.go, and idleOnly of run.go: what a scrape shows
-- for each GPU slot. float64 and the random generator are parameters.
use sims.Prelude.{
  ℕ, suc, String, ◌&&◌, List, [], ◌∷◌, Option, none, some, if◌then◌else◌, map, range, get_elem?,
}
use sims.Prelude.Float.{Float64}
use sims.Prelude.Results.{Call}
use sims.Text.{append, concat, trim_space}
use sims.Text.Split.{split_2}
use sims.Text.Decimal.{itoa, pad2}
use sims.Dcgm.Registry.{Snapshot}
use sims.Dcgm.Cache.{NodeAssignment}

pub record GpuIdentity : Type 0 where
  pub index : ℕ
  pub uuid : String
  pub device : String
  pub model_name : String
  pub mig_profile : String

abbrev pub gpu_at : String → String → String → ℕ → GpuIdentity
gpu_at hostname product_name mig_profile i = record {
  index = i;
  uuid = concat ("GPU-sim-" ∷ hostname ∷ "-" ∷ pad2 i ∷ []);
  device = append "nvidia" (itoa i);
  model_name = product_name;
  mig_profile = mig_profile;
}

-- The command line refuses a negative count, so the count is a natural number here.
unfoldable pub build_gpus : String → String → String → ℕ → List GpuIdentity
build_gpus hostname product_name mig_profile n =
    map (gpu_at hostname product_name mig_profile) (range n)

module _ (fl : Float64) where
  open fl use {F, lit, add, sub, mul, div, le, eq, parse_float}

  -- The fields that the loaded and the idle snapshot of a slot share; the rest are zero values.
  abbrev pub bare : GpuIdentity → String → Snapshot fl
  bare g hostname = record {
    gpu = itoa g.index;
    uuid = g.uuid;
    device = g.device;
    model_name = g.model_name;
    mig_profile = g.mig_profile;
    hostname = hostname;
    pod = "";
    namespace = "";
    container = "";
    gpu_temp = lit 0 0;
    power_usage = lit 0 0;
    sm_clock = lit 0 0;
    mem_clock = lit 5500 0;
    pcie_tx_throughput = lit 0 0;
    pcie_rx_throughput = lit 0 0;
    fan_speed = lit 0 0;
    ecc_sbe_total = lit 0 0;
    ecc_dbe_total = lit 0 0;
    tensor_pipe_active = lit 0 0;
  }

  unfoldable pub fill_idle : Snapshot fl → Snapshot fl
  fill_idle s = record s {
    gpu_temp = lit 30 0;
    power_usage = lit 50 0;
    sm_clock = lit 600 0;
    pcie_tx_throughput = lit 100 0;
    pcie_rx_throughput = lit 100 0;
    fan_speed = lit 20 0;
    tensor_pipe_active = lit 0 0;
  }

  -- The readings at a utilization and a jitter.
  unfoldable pub loaded : Snapshot fl → F → F → Snapshot fl
  loaded s util jitter = record s {
    gpu_temp = add (add (lit 40 0) (mul util (lit 55 2))) jitter;
    power_usage = add (lit 50 0) (mul util (lit 25 1));
    sm_clock = add (lit 600 0) (mul util (lit 13 0));
    pcie_tx_throughput = add (lit 100 0) (mul util (lit 80 0));
    pcie_rx_throughput = add (lit 100 0) (mul util (lit 80 0));
    fan_speed = add (lit 20 0) (mul util (lit 6 1));
    tensor_pipe_active = mul (div util (lit 100 0)) (lit 7 1);
  }

  -- The range of a text: the default where there is none, or where it is no range in 0 to 100.
  abbrev pub checked : F → F → F × F
  checked l h = if le (lit 0 0) l && le h (lit 100 0) && le l h then (l, h) else (lit 5 0, lit 15 0)

  abbrev pub with_high : F → Option F → F × F
  with_high l none = (lit 5 0, lit 15 0)
  with_high l (some h) = checked l h

  abbrev pub with_low : String → Option F → F × F
  with_low high none = (lit 5 0, lit 15 0)
  with_low high (some l) = with_high l (parse_float (trim_space high))

  abbrev pub of_parts : Option (String × String) → F × F
  of_parts none = (lit 5 0, lit 15 0)
  of_parts (some (low, high)) = with_low high (parse_float (trim_space low))

  -- An empty text has no dash, and gives the default as well.
  unfoldable pub util_range : String → F × F
  util_range raw = of_parts (split_2 b'-' raw)

  module _ {R : Type 0} (draw : Call R F) where
    unfoldable pub fill_loaded : Snapshot fl → F → Call R (Snapshot fl)
    unfolding loaded
    fill_loaded s util rng =
        let (u, rng') = draw rng in (loaded s util (sub (mul u (lit 2 0)) (lit 1 0)), rng')

    unfoldable pub sample_util : String → Call R F
    unfolding util_range
    sample_util raw rng =
        let (low, high) = util_range raw in
        let (u, rng') = draw rng in
        if eq low high then (low, rng) else (add low (mul u (sub high low)), rng')

    -- The snapshot of one slot, and the generator after it.
    abbrev pub slot : GpuIdentity → String → Option NodeAssignment → Call R (Snapshot fl)
    slot g hostname none rng = (fill_idle (bare g hostname), rng)
    slot g hostname (some a) rng =
        let (util, rng1) = sample_util a.util rng in
        fill_loaded
          (record (bare g hostname) {
            pod = a.pod_name;
            namespace = a.namespace;
            container = a.container;
          })
          util rng1

    -- `for i, g := range gpus`, from slot `i` on.
    unfoldable pub slots_from :
        List NodeAssignment → String → ℕ → List GpuIdentity → R → List (Snapshot fl)
    unfolding fill_idle fill_loaded sample_util
    slots_from assignments hostname i [] rng = []
    slots_from assignments hostname i (g ∷ gs) rng =
        let (s, rng') = slot g hostname (get_elem? assignments i) rng in
        s ∷ slots_from assignments hostname (suc i) gs rng'

    -- The sampler, on the assignments of the cache and a fresh generator.
    unfoldable pub sampler :
        List NodeAssignment → List GpuIdentity → String → R → List (Snapshot fl)
    unfolding slots_from
    sampler assignments gpus hostname rng = slots_from assignments hostname 0 gpus rng

  -- The sampler without a cluster: every slot is idle.
  unfoldable pub idle_only : List GpuIdentity → String → List (Snapshot fl)
  unfolding fill_idle
  idle_only gpus hostname = map (λ g. fill_idle (bare g hostname)) gpus
