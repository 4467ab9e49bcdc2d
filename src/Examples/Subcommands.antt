-- ===== src/Examples/Subcommands.antt =====
-- operators/fake-rocm-gpu-operator: the subcommands and the device plugin's stream at concrete inputs.
use sims.Prelude.{
  ◌^◌, ◌<◌, String, true, false, List, [], ◌∷◌, none, some, map, ◌≡◌, refl, arith, if◌then◌else◌,
}
use sims.Prelude.Int.{pos}
use sims.Prelude.Results.{Result, ok, err, Call}
use sims.Text.{is_empty}
use sims.Text.Decimal.{atoi}
use sims.Text.Decimal.RoundTrip.{atoi-itoa}
use sims.Text.Flags.{Numbers}
use sims.Rocm.Simulate.{Gpu, effective_count}
use sims.Rocm.DevicePlugin.Server.{Device, Server, devices, default_resource_name}
use sims.Rocm.DevicePlugin.Devices.{device_ids}
use sims.Rocm.DevicePlugin.Watch.{
  stopped, ticked, list_and_watch, watch, times, StreamLaws, list_and_watch_sends,
}
use sims.Rocm.Exporter.{new_cache}
use sims.Rocm.Controller.Workloads.{normalize_partition, device_plugin_args, metrics_exporter_args}
use sims.Rocm.Subcommands.Dispatch.{dispatch, start, device_plugin, metrics_exporter}
use sims.Rocm.Subcommands.Plugin.{Plugin, start_plugin}
use sims.Rocm.Subcommands.Exporter.{Exporter, start_exporter}
use sims.Rocm.Subcommands.Agreed.{workloads_agree}
use sims.Examples.Floats.{hundredths}
use sims.Examples.Clusters.{config, device_config, eight}

-- Decimal texts, and no durations.
abbrev numbers : Numbers
numbers = record { parse_int = atoi; parse_duration = λ text. none }

four :
    effective_count
      (normalize_partition device_config.spec.compute_partition).0
      (normalize_partition device_config.spec.compute_partition).1
    < 2 ^ 31
unfolding normalize_partition effective_count
four = omega arith

workloads_agree_example :
    (plugin_args : List String) × (exporter_args : List String) × (plugin : Plugin)
    × (exporter : Exporter hundredths numbers) × (dispatch (device_plugin_args config device_config)
        ≡ start device_plugin plugin_args)
    × (start_plugin numbers true plugin_args ≡ ok (some plugin))
    × (dispatch (metrics_exporter_args config device_config) ≡ start metrics_exporter exporter_args)
    × (start_exporter hundredths numbers true "node" (err "no host") exporter_args
        ≡ ok (some exporter))
    × (device_ids plugin.server.devices ≡ map (λ (g : Gpu). g.id) exporter.gpus)
    × (plugin.server.resource_name
        ≡ (if is_empty config.resource_name then default_resource_name else config.resource_name))
    × (exporter.cache
        ≡ some (new_cache hundredths config.namespace "node" config.default_utilization))
workloads_agree_example =
    workloads_agree numbers atoi-itoa hundredths config device_config 2 1000 "node" (err "no host")
      refl refl (omega arith) (omega arith) refl (four, eight)

-- A stream that keeps what it is sent.
abbrev keep : List Device → Call (List (List Device)) (Result String (Unit {0}))
keep ds w = (ok tt, ds ∷ w)

abbrev keep_laws : StreamLaws keep
keep_laws = record { received = λ w. w; sends = λ ds w sent. refl }

abbrev server : Server
server = record {
  resource_name = "amd.com/gpu";
  socket_dir = "/tmp";
  gpu_count = pos 1;
  devices = record { id = "gpu-0"; health = "Healthy" } ∷ [];
  grpc_server = true;
  listener = true;
  stop_updates = false;
}

watched :
    list_and_watch keep server (ticked ∷ stopped ∷ []) []
    ≡ some (ok tt, server.devices ∷ server.devices ∷ [])
unfolding list_and_watch watch devices
watched = refl

list_and_watch_sends_example : server.devices ∷ server.devices ∷ [] ≡ times 2 (devices server) []
list_and_watch_sends_example =
    list_and_watch_sends keep keep_laws server (ticked ∷ stopped ∷ []) []
      (server.devices ∷ server.devices ∷ []) watched
