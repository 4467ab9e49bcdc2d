-- ===== src/Rocm/Subcommands/Plugin.antt =====
-- operators/fake-rocm-gpu-operator/internal/deviceplugin/run.go: the device plugin, from its flags to the
-- server and the annotator that it starts. The log is left out.
use sims.Prelude.{String, Bool, List, ◌∷◌, [], Option, none, some, if◌then◌else◌}
use sims.Prelude.Int.{ℤ, pos, ltb_ℤ}
use sims.Prelude.Maps.{Map}
use sims.Prelude.Results.{Result, ok, err}
use sims.Text.Flags.{
  FlagSet, FlagError, Numbers, parse, any_text, a_number, a_duration, text_of, number_of,
  duration_of, after_flags,
}
use sims.Rocm.DevicePlugin.Rounds.{Annotator, default_pod_resources_socket}
use sims.Rocm.DevicePlugin.Server.{Server, new, default_resource_name, default_socket_dir}

pub record Plugin : Type 0 where
  pub server : Server
  pub annotator : Option Annotator

pub data PluginError : Type 0 where
  flags_failed : FlagError → PluginError
  negative_gpus : ℤ → PluginError
  annotator_failed : String → PluginError
  server_failed : String → PluginError

module _ (numbers : Numbers) where
  abbrev pub device_plugin_flags : FlagSet
  device_plugin_flags =
      ("gpus-per-node", a_number numbers)
      ∷ ("resource-name", any_text)
      ∷ ("kubelet-socket-dir", any_text)
      ∷ ("pod-resources-socket", any_text)
      ∷ ("annotator-interval", a_duration numbers)
      ∷ []

  abbrev pub annotator_of : Map String → Annotator
  annotator_of values = record {
    resource_name = text_of values "resource-name" default_resource_name;
    socket_path = text_of values "pod-resources-socket" default_pod_resources_socket;
    reconcile_interval = duration_of numbers values "annotator-interval" (pos 5000000000);
  }

  -- `in_cluster` says whether the client of the cluster could be made: without it there is no annotator.
  abbrev pub plugin_for : Bool → Map String → ℤ → Result PluginError Plugin
  plugin_for in_cluster values gpus =
      if ltb_ℤ gpus (pos 0)
      then err (negative_gpus gpus)
      else ok (record {
        server = new (record {
          resource_name = text_of values "resource-name" default_resource_name;
          socket_dir = text_of values "kubelet-socket-dir" default_socket_dir;
          gpu_count = gpus;
        });
        annotator = if in_cluster then some (annotator_of values) else none;
      })

  abbrev pub plugin_of : Bool → Map String → Result PluginError Plugin
  plugin_of in_cluster values =
      plugin_for in_cluster values (number_of numbers values "gpus-per-node" (pos 2))

  unfoldable pub start_plugin : Bool → List String → Result PluginError (Option Plugin)
  unfolding parse new
  start_plugin in_cluster args =
      after_flags flags_failed (plugin_of in_cluster) (parse device_plugin_flags args [])

-- What the goroutines and the context report, in the order in which it arrives: a server or an annotator
-- that returns without an error reports nothing.
pub data Report : Type 0 where
  cancelled : Report
  annotator_returned : Result String (Unit {0}) → Report
  server_returned : Result String (Unit {0}) → Report

-- The end of Run, `none` where it still waits.
unfoldable pub wait : List Report → Option (Result PluginError (Unit {0}))
wait [] = none
wait (cancelled ∷ later) = some (ok tt)
wait (annotator_returned (err e) ∷ later) = some (err (annotator_failed e))
wait (annotator_returned (ok _) ∷ later) = wait later
wait (server_returned (err e) ∷ later) = some (err (server_failed e))
wait (server_returned (ok _) ∷ later) = wait later
