-- ===== src/Rocm/Subcommands/Controller.antt =====
-- operators/fake-rocm-gpu-operator/internal/controller/run.go: the controller, from its flags to the
-- configuration of its reconciler. The manager is a library.
use sims.Prelude.{String, List, ◌∷◌, [], Option}
use sims.Prelude.Int.{pos, wrap32}
use sims.Prelude.Maps.{Map}
use sims.Prelude.Results.{Result, ok, wrap, ◌>>=◌}
use sims.Text.Flags.{
  FlagSet, FlagError, Numbers, parse, any_text, a_number, text_of, number_of, after_flags,
}
use sims.Rocm.NodeSelector.{SelectorError, parse_node_selector}
use sims.Rocm.Controller.Objects.{Config}

pub data ControllerError : Type 0 where
  flags_failed : FlagError → ControllerError
  selector_failed : SelectorError → ControllerError

module _ (numbers : Numbers) where
  abbrev pub controller_flags : FlagSet
  controller_flags =
      ("namespace", any_text)
      ∷ ("image", any_text)
      ∷ ("image-pull-policy", any_text)
      ∷ ("gpus-per-node", a_number numbers)
      ∷ ("product-name", any_text)
      ∷ ("gpu-memory-bytes", a_number numbers)
      ∷ ("resource-name", any_text)
      ∷ ("default-node-selector", any_text)
      ∷ ("default-utilization", any_text)
      ∷ ("metrics-bind-address", any_text)
      ∷ ("health-probe-bind-address", any_text)
      ∷ []

  -- The number of GPUs is converted to an int32.
  abbrev pub config_with : Map String → Map String → Config
  config_with values node_selector = record {
    image = text_of values "image" "ghcr.io/alessandro-festa/fake-rocm-gpu-operator:0.1.0";
    image_pull_policy = text_of values "image-pull-policy" "IfNotPresent";
    gpus_per_node = wrap32 (number_of numbers values "gpus-per-node" (pos 2));
    product_name = text_of values "product-name" "MI300X";
    gpu_memory_bytes = number_of numbers values "gpu-memory-bytes" (pos 206158430208);
    resource_name = text_of values "resource-name" "amd.com/gpu";
    default_utilization = text_of values "default-utilization" "5-15";
    default_node_selector = node_selector;
    namespace = text_of values "namespace" "gpu-operator";
  }

  abbrev pub config_of : Map String → Result ControllerError Config
  config_of values =
      wrap selector_failed
        (parse_node_selector (text_of values "default-node-selector" "sims.io/gpu-vendor=amd"))
      >>= (λ selector. ok (config_with values selector))

  unfoldable pub controller_config : List String → Result ControllerError (Option Config)
  unfolding parse parse_node_selector
  controller_config args = after_flags flags_failed config_of (parse controller_flags args [])
