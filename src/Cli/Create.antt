-- ===== src/Cli/Create.antt =====
-- pkg/cli/gpu_create.go: creating a cluster. The flags, the logger and the texts of the log are left out.
use sims.Prelude.{
  ℕ, String, Bool, true, false, [], ◌∷◌, Option, none, some, if◌then◌else◌, ◌==◌, ◌||◌,
}
use sims.Prelude.Maps.{Map, lookup}
use sims.Prelude.Results.{Result, ok, err}
use sims.Prelude.Commands.{Command, ◌>>=◌, ◌>>◌, call, lift, within, finally, effect, done}
use sims.K8s.{Quantities}
use sims.Text.{append, concat, is_empty}
use sims.Text.Decimal.{itoa_ℤ}
use sims.Config.{vendor_nvidia, vendor_amd}
use sims.Config.KindConfig.{Options, render}
use sims.Cluster as Provider
use sims.Helm.Client.{Client, new, close}
use sims.Helm.Actions.{
  Value, str, tree, field, end, install, ensure_dependencies, without_create_namespace,
}
use sims.Kube.Clients.{ensure, await_capacity, await_deployment}
use sims.Simsconfig.Types.{SimsConfig}
use sims.Simsconfig.Families.{FamilyInfo, families}
use sims.Simsconfig.Load.{ConfigError}
use sims.Cli.Host.{
  Host, CliError, vendor_or_config_required, load_failed, invalid_vendor, render_failed,
  cluster_failed, client_failed, helm_failed, kube_failed,
}
use sims.Cli.Values.{CreateOpts, build_nvidia_values, build_amd_values}

abbrev pub chart_namespace : String
chart_namespace = "gpu-operator"

abbrev pub monitoring_release : String
monitoring_release = "sims-monitoring"

abbrev pub monitoring_namespace : String
monitoring_namespace = "monitoring"

-- The flags that the user has given on the command line.
abbrev pub keep_flag : {A : Type 0} → Bool → A → A → A
keep_flag changed mine configured = if changed then mine else configured

-- The product of a known family, with the memory of the file.
abbrev pub with_family : SimsConfig → Option FamilyInfo → CreateOpts → CreateOpts
with_family cfg none o = o
with_family cfg (some fam) o = record o {
  product_name = fam.product_name;
  gpu_memory_bytes = cfg.gpu.memory_bytes;
}

-- What is taken from the file: all that no flag has set, and the features of the GPU.
unfoldable pub configured : (String → Bool) → SimsConfig → CreateOpts → CreateOpts
configured changed cfg o =
    let flags = record o {
      vendor = keep_flag (changed "vendor") o.vendor cfg.vendor;
      name = keep_flag (changed "name" || is_empty cfg.name) o.name cfg.name;
      workers = keep_flag (changed "workers") o.workers cfg.workers;
      gpus_per_worker = keep_flag (changed "gpus-per-worker") o.gpus_per_worker cfg.gpu.per_worker;
      k8s_version =
          keep_flag (changed "k8s-version" || is_empty cfg.k8s_version) o.k8s_version
            cfg.k8s_version;
      taint = keep_flag (changed "taint") o.taint cfg.taint;
      with_monitoring = keep_flag (changed "monitoring") o.with_monitoring cfg.monitoring;
    } in
    record (with_family cfg (lookup families cfg.gpu.family) flags) {
      mig_profile = cfg.gpu.features.mig;
      partition_mode = cfg.gpu.features.partition.mode;
      partition_count = cfg.gpu.features.partition.count;
      default_utilization = cfg.workload.default_utilization;
    }

abbrev pub loaded :
    (String → Bool) → CreateOpts → Result ConfigError SimsConfig → Result CliError CreateOpts
loaded changed o (err e) = err (load_failed e)
loaded changed o (ok cfg) = ok (configured changed cfg o)

unfoldable pub apply_config :
    (String → Bool)
    → (String → Result ConfigError SimsConfig)
    → CreateOpts
    → Result CliError CreateOpts
unfolding configured
apply_config changed load_file o =
    if is_empty o.config_path
    then (if is_empty o.vendor then err vendor_or_config_required else ok o)
    else loaded changed o (load_file o.config_path)

unfoldable pub validate_vendor : String → Result CliError (Unit {0})
validate_vendor v = if v == vendor_nvidia || v == vendor_amd then ok tt else err (invalid_vendor v)

pub record Wiring : Type 0 where
  pub release : String
  pub values : CreateOpts → Value
  pub resource : String

unfoldable pub vendor_wiring : String → Wiring
vendor_wiring vendor =
    if vendor == vendor_amd
    then record { release = "sims-amd"; values = build_amd_values; resource = "amd.com/gpu" }
    else record {
      release = "sims-nvidia";
      values = build_nvidia_values;
      resource = "nvidia.com/gpu";
    }

abbrev pub monitoring_ns_labels : Map String
monitoring_ns_labels =
    ("app.kubernetes.io/managed-by", "sims") ∷ ("app.kubernetes.io/part-of", "sims") ∷ []

abbrev pub psa_privileged_labels : Map String
psa_privileged_labels =
    ("pod-security.kubernetes.io/enforce", "privileged")
    ∷ ("pod-security.kubernetes.io/audit", "privileged")
    ∷ ("pod-security.kubernetes.io/warn", "privileged")
    ∷ ("app.kubernetes.io/managed-by", "sims")
    ∷ ("app.kubernetes.io/part-of", "sims")
    ∷ []

unfoldable pub cluster_name : CreateOpts → String
cluster_name o = if is_empty o.name then append "sims-" o.vendor else o.name

abbrev pub render_options : CreateOpts → Options
render_options o = record {
  vendor = o.vendor;
  name = cluster_name o;
  workers = o.workers;
  k8s_version = o.k8s_version;
  taint = o.taint;
}

module _ {qs : Quantities} {W : Type 0} (host : Host qs W) where
  -- The directory of a chart: under SIMS_CHART_DIR, or under "charts".
  abbrev pub resolve_chart_dir : String → W → String
  resolve_chart_dir name w =
      let dir = host.helm.getenv "SIMS_CHART_DIR" w in
      host.join (if is_empty dir then "charts" else dir) name

  -- `defer func() { _ = hc.Close() }()`
  abbrev pub closed : Client → W → W
  closed c w = let (r, c', w') = close host.files c w in w'

  -- The dependencies of a chart, and its installation.
  unfoldable pub install_chart : Client → String → String → Value → Command W CliError (Unit {0})
  install_chart c release chart values w =
      let dir = resolve_chart_dir chart w in
      (within helm_failed (ensure_dependencies host.helm c dir)
          >> within helm_failed
              (install host.helm c release dir values (without_create_namespace ∷ [])))
        w

  -- A wait under a timeout in seconds, whose cancel is deferred.
  abbrev pub under_timeout : {A : Type 0} → ℕ → Command W CliError A → Command W CliError A
  under_timeout seconds m = do
    effect (host.timers.with_timeout seconds)
    finally host.timers.cancel m

  abbrev pub grafana_ready : String → Command W CliError (Unit {0})
  grafana_ready kubeconfig = within kube_failed (
      await_deployment qs host.connect host.timers host.fuel kubeconfig monitoring_namespace
        (append monitoring_release "-grafana"))

  abbrev pub monitor : String → String → Client → Command W CliError (Unit {0})
  monitor kubeconfig vendor c = do
    install_chart c monitoring_release monitoring_release (tree (field "vendor" (str vendor) end))
    under_timeout 240 (grafana_ready kubeconfig)

  unfoldable pub install_monitoring : String → String → Command W CliError (Unit {0})
  unfolding install_chart
  install_monitoring kubeconfig vendor = do
    within kube_failed (ensure qs host.connect kubeconfig monitoring_namespace monitoring_ns_labels)
    c ← call client_failed (new host.files kubeconfig monitoring_namespace)
    finally (closed c) (monitor kubeconfig vendor c)

  abbrev pub when : Bool → Command W CliError (Unit {0}) → Command W CliError (Unit {0})
  when true m = m
  when false m = done tt

  abbrev pub ready_text : CreateOpts → String
  ready_text o =
      let name = cluster_name o in
      concat (
        "cluster \""
        ∷ name
        ∷ "\" ready — "
        ∷ itoa_ℤ o.workers
        ∷ " workers × "
        ∷ itoa_ℤ o.gpus_per_worker
        ∷ " "
        ∷ (vendor_wiring o.vendor).resource
        ∷ "\nkubeconfig context: kind-"
        ∷ name
        ∷ (if o.with_monitoring
            then "\nmonitoring: run `sims gpu dashboard` to open Grafana"
            else "")
        ∷ "\n"
        ∷ [])

  abbrev pub capacity_ready : CreateOpts → String → Command W CliError (Unit {0})
  capacity_ready o kubeconfig = within kube_failed (
      await_capacity qs host.connect host.timers host.fuel kubeconfig
        (vendor_wiring o.vendor).resource o.gpus_per_worker o.workers)

  -- The wait for the GPUs, and what is left to do after it.
  abbrev pub finish : CreateOpts → String → Command W CliError (Unit {0})
  finish o kubeconfig = do
    capacity_ready o kubeconfig
    when o.with_monitoring (install_monitoring kubeconfig o.vendor)
    effect (λ w. (host.print (ready_text o) w).1)

  -- From the client of the chart namespace on.
  abbrev pub with_client : CreateOpts → String → Client → Command W CliError (Unit {0})
  with_client o kubeconfig c = do
    install_chart c (vendor_wiring o.vendor).release (vendor_wiring o.vendor).release
        ((vendor_wiring o.vendor).values o)
    under_timeout 120 (finish o kubeconfig)

  unfoldable pub run_create : CreateOpts → Command W CliError (Unit {0})
  unfolding install_chart install_monitoring
  run_create o = do
    lift (λ (e : CliError). e) (validate_vendor o.vendor)
    raw ← lift render_failed (render (render_options o))
    call cluster_failed (Provider.create host.kind (cluster_name o) raw)
    kubeconfig ← call cluster_failed (Provider.kube_config host.kind (cluster_name o))
    within kube_failed (ensure qs host.connect kubeconfig chart_namespace psa_privileged_labels)
    c ← call client_failed (new host.files kubeconfig chart_namespace)
    finally (closed c) (with_client o kubeconfig c)
