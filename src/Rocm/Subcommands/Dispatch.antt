-- ===== src/Rocm/Subcommands/Dispatch.antt =====
-- operators/fake-rocm-gpu-operator/cmd/fake-rocm-gpu-operator/main.go: the choice of a subcommand. There
-- are no stubs left in the source's map of stubs.
use sims.Prelude.{String, List, [], ◌∷◌, Option, none, some, if◌then◌else◌, ◌==◌, ◌||◌}

pub data Subcommand : Type 0 where
  metrics_exporter : Subcommand
  device_plugin : Subcommand
  status_updater : Subcommand
  node_labeller : Subcommand
  controller : Subcommand

-- What `run` does: an error of usage, the text of the usage, a subcommand with its arguments, or an
-- error for a subcommand that is not known.
pub data Dispatch : Type 0 where
  usage : Dispatch
  help : Dispatch
  start : Subcommand → List String → Dispatch
  unknown : String → Dispatch

abbrev named : String → Option Subcommand
named sub =
    if sub == "metrics-exporter"
    then some metrics_exporter
    else if sub == "device-plugin"
    then some device_plugin
    else if sub == "status-updater"
    then some status_updater
    else if sub == "node-labeller"
    then some node_labeller
    else if sub == "controller"
    then some controller
    else none

abbrev started : String → List String → Option Subcommand → Dispatch
started sub args none = unknown sub
started sub args (some s) = start s args

unfoldable pub dispatch : List String → Dispatch
dispatch [] = usage
dispatch (sub ∷ args) =
    if sub == "-h" || sub == "--help" || sub == "help" then help else started sub args (named sub)
