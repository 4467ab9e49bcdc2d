-- ===== src/Rocm/Exporter.antt =====
-- operators/fake-rocm-gpu-operator/internal/exporter: the cache of what the cluster holds, and the
-- sampler that a scrape calls. The APIs of ConfigMaps and pods, and the random generator, are parameters.
pub mod Sampled
pub mod Refreshed
use sims.Prelude.{
  ℕ, String, Bool, true, false, List, [], ◌∷◌, Option, none, some, if◌then◌else◌, map,
}
use sims.Prelude.Float.{Float64}
use sims.Prelude.Maps.{Map, lookup, insert, get_or}
use sims.Prelude.Results.{rounds, Result, ok, err, Call}
use sims.K8s.{ApiError}
use sims.Text.{concat}
use sims.Rocm.Annotations.{
  Range, RangeError, parse_utilization_with_default, sample, utilization_annotation,
}
use sims.Rocm.Simulate.{Gpu, Sample, sample_idle, sample_loaded}
use sims.Rocm.Topology.{
  Assignment, Topology, TopologyError, ConfigMaps, load, find_assignment, empty,
}
use sims.Rocm.Metrics.{Snapshot}

-- The key of a pod: "namespace/name".
abbrev pub pod_key : String → String → String
pod_key namespace name = concat (namespace ∷ "/" ∷ name ∷ [])

module _ (fl : Float64) where
  pub record WorldState : Type 0 where
    pub topology : Topology
    pub pod_ranges : Map (Range fl)

  pub record Cache : Type 0 where
    pub namespace : String
    pub hostname : String
    pub default_util : String
    pub state : WorldState

  unfoldable pub new_cache : String → String → String → Cache
  new_cache namespace hostname default_util = record {
    namespace = namespace;
    hostname = hostname;
    default_util = default_util;
    state = record { topology = empty; pod_ranges = [] };
  }

  -- The zero value of a Range.
  abbrev pub zero_range : Range fl
  zero_range = record { low = fl.lit 0 0; high = fl.lit 0 0 }

  abbrev or_zero : Result RangeError (Range fl) → Range fl
  or_zero (ok r) = r
  or_zero (err e) = zero_range

  -- An annotation that does not parse gives the default range; so does none.
  abbrev pub range_of : String → Result RangeError (Range fl) → Range fl
  range_of default_util (ok r) = r
  range_of default_util (err e) = or_zero (parse_utilization_with_default fl "" default_util)

  -- The annotations of the pod, where the API gave it.
  abbrev pub with_pod :
      String → String → Result ApiError (Map String) → Map (Range fl) → Map (Range fl)
  with_pod default_util key (err e) ranges = ranges
  with_pod default_util key (ok annotations) ranges = insert ranges key (
      range_of default_util (
        parse_utilization_with_default fl (get_or "" annotations utilization_annotation)
          default_util))

  -- `get_pod` returns the annotations of a pod.
  module _ {W : Type 0} (api : ConfigMaps W)
      (get_pod : String → String → Call W (Result ApiError (Map String))) where
    -- One assignment: a pod that has been seen is not fetched again.
    abbrev pub fetch :
        String → Assignment → Option (Range fl) → Map (Range fl) → W → Map (Range fl) × W
    fetch default_util a (some seen) ranges w = (ranges, w)
    fetch default_util a none ranges w =
        let (r, w') = get_pod a.pod_namespace a.pod_name w in
        (with_pod default_util (pod_key a.pod_namespace a.pod_name) r ranges, w')

    unfoldable pub fetch_ranges : String → List Assignment → Map (Range fl) → W → Map (Range fl) × W
    fetch_ranges default_util [] ranges w = (ranges, w)
    fetch_ranges default_util (a ∷ rest) ranges w =
        let (ranges', w') =
          fetch default_util a (lookup ranges (pod_key a.pod_namespace a.pod_name)) ranges w in
        fetch_ranges default_util rest ranges' w'

    abbrev pub refreshed : Cache → Result TopologyError Topology → W → Cache × W
    refreshed c (err e) w = (c, w)
    refreshed c (ok top) w =
        let (ranges, w') = fetch_ranges c.default_util (get_or [] top.nodes c.hostname) [] w in
        (record c { state = record { topology = top; pod_ranges = ranges } }, w')

    -- A topology that cannot be loaded keeps the previous state.
    unfoldable pub refresh : Cache → W → Cache × W
    unfolding fetch_ranges
    refresh c w = let (r, w') = load api c.namespace w in refreshed c r w'

    abbrev pub refresh_both : Cache × W → Cache × W
    refresh_both (c, w) = refresh c w

    -- Run of the cache, whose context is done after `ticks` ticks.
    unfoldable pub run_cache : ℕ → Cache × W → Cache × W
    unfolding refresh rounds
    run_cache ticks state = rounds refresh_both ticks state

  unfoldable pub snapshot_from_idle : Gpu → String → Snapshot fl
  snapshot_from_idle g hostname =
      let s = sample_idle fl g in
      record {
        gpu_id = g.id;
        serial_number = g.serial_number;
        card_series = g.card_series;
        card_model = g.card_model;
        hostname = hostname;
        pod = "";
        namespace = "";
        container = "";
        partition_mode = g.partition_mode;
        partition_id = g.partition_id;
        junction_temp = s.junction_temp;
        package_power = s.package_power;
        gfx_activity = s.gfx_activity;
        used_vram = s.used_vram;
        total_vram = s.total_vram;
        health = s.health;
        clock_gfx = s.clock_gfx;
        voltage = s.voltage;
        fan_speed = s.fan_speed;
        pcie_bandwidth = s.pcie_bandwidth;
      }

  unfoldable pub snapshot_from_loaded : Gpu → String → Assignment → Sample fl → Snapshot fl
  snapshot_from_loaded g hostname a s = record {
    gpu_id = g.id;
    serial_number = g.serial_number;
    card_series = g.card_series;
    card_model = g.card_model;
    hostname = hostname;
    pod = a.pod_name;
    namespace = a.pod_namespace;
    container = a.container;
    partition_mode = g.partition_mode;
    partition_id = g.partition_id;
    junction_temp = s.junction_temp;
    package_power = s.package_power;
    gfx_activity = s.gfx_activity;
    used_vram = s.used_vram;
    total_vram = s.total_vram;
    health = s.health;
    clock_gfx = s.clock_gfx;
    voltage = s.voltage;
    fan_speed = s.fan_speed;
    pcie_bandwidth = s.pcie_bandwidth;
  }

  -- The sampler without a cluster: every GPU is idle.
  unfoldable pub idle_sampler : List Gpu → String → List (Snapshot fl)
  unfolding snapshot_from_idle
  idle_sampler [] hostname = []
  idle_sampler (g ∷ gs) hostname = snapshot_from_idle g hostname ∷ idle_sampler gs hostname

  module _ {R : Type 0} (draw : Call R fl.F) where
    -- The snapshot of one GPU, and the generator after it.
    abbrev pub snapshot_of : WorldState → String → Gpu → Option Assignment → Call R (Snapshot fl)
    snapshot_of state hostname g none rng = (snapshot_from_idle g hostname, rng)
    snapshot_of state hostname g (some a) rng =
        let r = get_or zero_range state.pod_ranges (pod_key a.pod_namespace a.pod_name) in
        let (util, rng1) = sample fl draw r rng in
        let (s, rng2) = sample_loaded fl draw g util rng1 in
        (snapshot_from_loaded g hostname a s, rng2)

    unfoldable pub topology_sampler : WorldState → List Gpu → String → R → List (Snapshot fl)
    unfolding snapshot_from_idle snapshot_from_loaded
    topology_sampler state [] hostname rng = []
    topology_sampler state (g ∷ gs) hostname rng =
        let (s, rng') =
          snapshot_of state hostname g (find_assignment state.topology hostname g.id) rng in
        s ∷ topology_sampler state gs hostname rng'
