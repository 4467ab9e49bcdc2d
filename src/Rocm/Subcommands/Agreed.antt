-- ===== src/Rocm/Subcommands/Agreed.antt =====
-- operators/fake-rocm-gpu-operator: the workloads of a DeviceConfig, started with the arguments that the
-- controller gives them.
use sims.Prelude.{
  ℕ, ◌*◌, ◌^◌, ◌<◌, String, true, List, [], ◌∷◌, some, ◌≡◌, arith, sym, map, ◌∙◌, ap, if◌then◌else◌,
  false,
}
use sims.Prelude.Float.{Float64}
use sims.Prelude.Int.{ℤ, pos}
use sims.Prelude.Results.{Result, ok}
use sims.Text.{append, is_empty}
use sims.Text.Decimal.{itoa_ℤ}
use sims.Text.Flags.{Numbers, ReadsDecimals}
use sims.Rocm.Simulate.{Gpu, effective_count, build_gpus}
use sims.Rocm.DevicePlugin.Server.{default_resource_name}
use sims.Rocm.DevicePlugin.Devices.{device_ids, plugin_and_exporter_agree}
use sims.Rocm.Exporter.{new_cache}
use sims.Rocm.Controller.Objects.{Config, DeviceConfig}
use sims.Rocm.Controller.Workloads.{
  normalize_partition, partition_multiplier, device_plugin_args, metrics_exporter_args,
}
use sims.Rocm.Controller.Flags.{normalized, advertised}
use sims.Rocm.Subcommands.Dispatch.{Dispatch, dispatch, start, device_plugin, metrics_exporter}
use sims.Rocm.Subcommands.Plugin.{Plugin, start_plugin}
use sims.Rocm.Subcommands.Exporter.{Exporter, start_exporter}
use sims.Rocm.Subcommands.Started.{plugin_started, exporter_started}

-- The workloads of a DeviceConfig agree on the GPUs of a node. Where the numbers of cards, of partitions
-- of a card and of partitions in all fit an int32 and the memory an int64, none of them negative, the
-- arguments of the two DaemonSets start a device plugin and a metrics exporter on a node with a name and
-- a client of the cluster: the devices that the plugin advertises are the GPUs that the exporter
-- reports, in the same order, under the resource of the controller's configuration; and the exporter
-- reads the topology of the controller's namespace. The hypothesis `reads` is what strconv documents of
-- decimal texts.
pub workloads_agree :
    (numbers : Numbers) (reads : ReadsDecimals numbers) (fl : Float64) (cfg : Config)
    (cr : DeviceConfig) (cards bytes : ℕ) (node_name : String) (host : Result String String)
    → cfg.gpus_per_node ≡ pos cards
    → cfg.gpu_memory_bytes ≡ pos bytes
    → cards < 2 ^ 31
    → bytes < 2 ^ 63
    → is_empty node_name ≡ false
    → (let (mode, count) = normalize_partition cr.spec.compute_partition in
        (effective_count mode count < 2 ^ 31) × (cards * effective_count mode count < 2 ^ 31))
    → (plugin_args : List String) × (exporter_args : List String) × (plugin : Plugin)
      × (exporter : Exporter fl numbers) × (dispatch (device_plugin_args cfg cr)
          ≡ start device_plugin plugin_args)
      × (start_plugin numbers true plugin_args ≡ ok (some plugin))
      × (dispatch (metrics_exporter_args cfg cr) ≡ start metrics_exporter exporter_args)
      × (start_exporter fl numbers true node_name host exporter_args ≡ ok (some exporter))
      × (device_ids plugin.server.devices ≡ map (λ (g : Gpu). g.id) exporter.gpus)
      × (plugin.server.resource_name
          ≡ (if is_empty cfg.resource_name then default_resource_name else cfg.resource_name))
      × (exporter.cache ≡ some (new_cache fl cfg.namespace node_name cfg.default_utilization))
unfolding dispatch device_plugin_args metrics_exporter_args partition_multiplier itoa_ℤ
workloads_agree numbers reads fl cfg cr cards bytes node_name host ec eb hc hb named fits =
    let (mode, count) = normalize_partition cr.spec.compute_partition in
    let k = effective_count mode count in
    let (plugin, p_starts, p_devices, p_resource) =
      plugin_started numbers reads (cards * k) cfg.resource_name "/var/lib/kubelet/device-plugins"
        "/var/lib/kubelet/pod-resources/kubelet.sock" (omega (arith, fits.1)) in
    let (exporter, e_starts, e_gpus, e_cache) =
      exporter_started numbers reads fl node_name host cards bytes k cfg.product_name cfg.namespace
        mode cfg.default_utilization named (omega (arith, hc)) hb (omega (arith, fits.0)) in
    let same = normalized cr.spec.compute_partition.mode cr.spec.compute_partition.count in
    (
      _,
      _,
      plugin,
      exporter,
      ap
          (λ (z : ℤ). start device_plugin (
            append "--gpus-per-node=" (itoa_ℤ z)
            ∷ append "--resource-name=" cfg.resource_name
            ∷ "--kubelet-socket-dir=/var/lib/kubelet/device-plugins"
            ∷ "--pod-resources-socket=/var/lib/kubelet/pod-resources/kubelet.sock"
            ∷ []))
          (advertised cfg cr cards ec fits.1),
      p_starts,
      ap (λ (z : ℤ). told mode z cfg.gpu_memory_bytes count) ec
          ∙ (ap (λ (z : ℤ). told mode (pos cards) z count) eb
              ∙ ap (λ (z : ℤ). told mode (pos cards) (pos bytes) z) same),
      e_starts,
      ap device_ids p_devices
          ∙ (plugin_and_exporter_agree node_name cfg.product_name (pos bytes) cards mode count
              ∙ ap (map (λ (g : Gpu). g.id)) (
                  ap (build_gpus node_name cfg.product_name (pos bytes) cards mode) same
                  ∙ sym e_gpus)),
      p_resource,
      e_cache,
    )
  where
    told : String → ℤ → ℤ → ℤ → Dispatch
    told mode gpus memory count = start metrics_exporter (
        "--listen=:5000"
        ∷ append "--gpus-per-node=" (itoa_ℤ gpus)
        ∷ append "--product-name=" cfg.product_name
        ∷ append "--memory-bytes=" (itoa_ℤ memory)
        ∷ append "--topology-namespace=" cfg.namespace
        ∷ append "--partition-mode=" mode
        ∷ append "--partition-count=" (itoa_ℤ count)
        ∷ append "--default-utilization=" cfg.default_utilization
        ∷ [])
