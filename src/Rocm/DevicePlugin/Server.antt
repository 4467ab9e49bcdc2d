-- ===== src/Rocm/DevicePlugin/Server.antt =====
-- operators/fake-rocm-gpu-operator/pkg/deviceplugin/server.go and registration.go: the data of the
-- server, and the answers that it gives to the kubelet.
use sims.Prelude.{ℕ, String, Bool, false, List, [], ◌∷◌, map, range, if◌then◌else◌}
use sims.Prelude.Int.{ℤ, pos, ltb_ℤ, to_ℕ}
use sims.Text.{append, is_empty}
use sims.Text.Decimal.{itoa}

abbrev pub default_resource_name : String
default_resource_name = "amd.com/gpu"

abbrev pub default_socket_dir : String
default_socket_dir = "/var/lib/kubelet/device-plugins"

abbrev pub plugin_socket_name : String
plugin_socket_name = "amd-gpu.sock"

abbrev pub kubelet_socket_name : String
kubelet_socket_name = "kubelet.sock"

-- pluginapi.Healthy and pluginapi.Version are constants of the kubelet's API.
pub record Device : Type 0 where
  pub id : String
  pub health : String

abbrev pub healthy : String
healthy = "Healthy"

-- The annotator, which runs beside the server and is not called by it, is left out.
pub record Options : Type 0 where
  pub resource_name : String
  pub socket_dir : String
  pub gpu_count : ℤ

-- The gRPC server and the listener are there between start and stop; `stop_updates` says whether the
-- channel has been closed.
pub record Server : Type 0 where
  pub resource_name : String
  pub socket_dir : String
  pub gpu_count : ℤ
  pub devices : List Device
  pub grpc_server : Bool
  pub listener : Bool
  pub stop_updates : Bool

abbrev device_at : ℕ → Device
device_at i = record { id = append "gpu-" (itoa i); health = healthy }

unfoldable pub build_devices : ℕ → List Device
build_devices n = map device_at (range n)

unfoldable pub new : Options → Server
unfolding build_devices
new opts =
    let count = if ltb_ℤ opts.gpu_count (pos 0) then pos 0 else opts.gpu_count in
    record {
      resource_name =
          if is_empty opts.resource_name then default_resource_name else opts.resource_name;
      socket_dir = if is_empty opts.socket_dir then default_socket_dir else opts.socket_dir;
      gpu_count = count;
      devices = build_devices (to_ℕ count);
      grpc_server = false;
      listener = false;
      stop_updates = false;
    }

-- The snapshot of the list that ListAndWatch sends.
unfoldable pub devices : Server → List Device
devices s = s.devices

-- The options of the request are the empty ones.
pub record RegisterRequest : Type 0 where
  pub version : String
  pub endpoint : String
  pub resource_name : String

-- `version` is pluginapi.Version.
unfoldable pub register_request : String → Server → RegisterRequest
register_request version s = record {
  version = version;
  endpoint = plugin_socket_name;
  resource_name = s.resource_name;
}

-- One empty answer for each container; a request is the list of its device ids.
unfoldable pub allocate : List (List String) → List (Unit {0})
allocate [] = []
allocate (c ∷ cs) = tt ∷ allocate cs
