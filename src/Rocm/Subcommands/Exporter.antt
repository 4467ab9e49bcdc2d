-- ===== src/Rocm/Subcommands/Exporter.antt =====
-- operators/fake-rocm-gpu-operator/internal/exporter/run.go: the metrics exporter, from its flags to what
-- it serves. The HTTP server is a library, and the log is left out.
use sims.Prelude.{String, Bool, List, ◌∷◌, [], Option, none, some, if◌then◌else◌}
use sims.Prelude.Int.{ℤ, pos, ltb_ℤ, to_ℕ}
use sims.Prelude.Float.{Float64}
use sims.Prelude.Maps.{Map}
use sims.Prelude.Results.{Result, ok, err, Call, ◌>>=◌, wrap}
use sims.Text.{is_empty}
use sims.Text.Flags.{
  FlagSet, FlagError, Numbers, parse, any_text, a_number, a_duration, text_of, number_of,
  duration_of, after_flags,
}
use sims.Rocm.Annotations.{default_utilization_range}
use sims.Rocm.Simulate.{Gpu, build_gpus, partition_spx}
use sims.Rocm.Metrics.{Snapshot}
use sims.Rocm.Exporter.{Cache, new_cache, idle_sampler, topology_sampler}

pub data ExporterError : Type 0 where
  flags_failed : FlagError → ExporterError
  negative_gpus : ℤ → ExporterError
  no_hostname : String → ExporterError

-- NODE_NAME, or else what os.Hostname returns.
abbrev pub hostname_of : String → Result String String → Result ExporterError String
hostname_of node_name host = if is_empty node_name then wrap no_hostname host else ok node_name

module _ (fl : Float64) (numbers : Numbers) where
  -- What serves the scrapes: the GPUs, and the cache where there is a client of the cluster. The cache
  -- refreshes itself in the interval, which is in nanoseconds.
  pub record Exporter : Type 0 where
    pub listen : String
    pub hostname : String
    pub gpus : List Gpu
    pub cache : Option (Cache fl)
    pub refresh_interval : ℤ

  abbrev pub exporter_flags : FlagSet
  exporter_flags =
      ("listen", any_text)
      ∷ ("gpus-per-node", a_number numbers)
      ∷ ("product-name", any_text)
      ∷ ("memory-bytes", a_number numbers)
      ∷ ("topology-namespace", any_text)
      ∷ ("refresh-interval", a_duration numbers)
      ∷ ("partition-mode", any_text)
      ∷ ("partition-count", a_number numbers)
      ∷ ("default-utilization", any_text)
      ∷ []

  -- The cache of buildSampler: without a client every GPU is idle.
  abbrev pub cache_of : Bool → Map String → String → Option (Cache fl)
  cache_of in_cluster values hostname =
      if in_cluster
      then some (
          new_cache fl (text_of values "topology-namespace" "gpu-operator") hostname
            (text_of values "default-utilization" default_utilization_range))
      else none

  abbrev pub exporter_on : Bool → Map String → ℤ → String → Result ExporterError Exporter
  exporter_on in_cluster values gpus hostname = ok (record {
    listen = text_of values "listen" ":5000";
    hostname = hostname;
    gpus =
        build_gpus hostname (text_of values "product-name" "MI300X")
          (number_of numbers values "memory-bytes" (pos 206158430208)) (to_ℕ gpus)
          (text_of values "partition-mode" partition_spx)
          (number_of numbers values "partition-count" (pos 1));
    cache = cache_of in_cluster values hostname;
    refresh_interval = duration_of numbers values "refresh-interval" (pos 5000000000);
  })

  abbrev pub exporter_for :
      Bool → String → Result String String → Map String → ℤ → Result ExporterError Exporter
  exporter_for in_cluster node_name host values gpus =
      if ltb_ℤ gpus (pos 0)
      then err (negative_gpus gpus)
      else hostname_of node_name host >>= exporter_on in_cluster values gpus

  abbrev pub exporter_of :
      Bool → String → Result String String → Map String → Result ExporterError Exporter
  exporter_of in_cluster node_name host values =
      exporter_for in_cluster node_name host values
        (number_of numbers values "gpus-per-node" (pos 2))

  unfoldable pub start_exporter :
      Bool → String → Result String String → List String → Result ExporterError (Option Exporter)
  unfolding parse build_gpus new_cache
  start_exporter in_cluster node_name host args =
      after_flags flags_failed (exporter_of in_cluster node_name host)
        (parse exporter_flags args [])

  -- A scrape: the sampler that buildSampler has chosen.
  unfoldable pub scrape : {R : Type 0} → Call R fl.F → Exporter → R → List (Snapshot fl)
  unfolding idle_sampler topology_sampler
  scrape draw e rng = elim e.cache [
    | none ↦ idle_sampler fl e.gpus e.hostname
    | some c ↦ topology_sampler fl draw c.state e.gpus e.hostname rng
  ]
