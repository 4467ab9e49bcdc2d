-- ===== src/Rocm/NodeLabeller.antt =====
-- operators/fake-rocm-gpu-operator/internal/nodelabeller/run.go: the labels that are patched onto a node.
-- The flags, the log and the wait for the end of the context are left out.
use sims.Prelude.{String, [], ◌∷◌, if◌then◌else◌}
use sims.Prelude.Int.{ℤ, pos}
use sims.Prelude.Maps.{Map}
use sims.Prelude.Results.{Result, Call}
use sims.Prelude.Commands.{Command, ◌>>=◌, call, fail, lift}
use sims.Text.{is_empty}
use sims.Text.Decimal.{itoa_ℤ}

-- The values of the flags.
pub record LabellerFlags : Type 0 where
  pub product : String
  pub cu_count : ℤ
  pub simd_count : ℤ
  pub device_id : String
  pub family : String
  pub vram : String

abbrev pub default_flags : LabellerFlags
default_flags = record {
  product = "MI300X";
  cu_count = pos 304;
  simd_count = pos 1216;
  device_id = "0x74a1";
  family = "MI300";
  vram = "192GB";
}

unfoldable pub node_labels : LabellerFlags → Map String
node_labels f =
    ("feature.node.kubernetes.io/amd-gpu", "true")
    ∷ ("amd.com/gpu.product-name", f.product)
    ∷ ("amd.com/gpu.cu-count", itoa_ℤ f.cu_count)
    ∷ ("amd.com/gpu.simd-count", itoa_ℤ f.simd_count)
    ∷ ("amd.com/gpu.device-id", f.device_id)
    ∷ ("amd.com/gpu.family", f.family)
    ∷ ("amd.com/gpu.vram", f.vram)
    ∷ []

pub data LabellerError : Type 0 where
  no_node_name : LabellerError
  no_client : String → LabellerError
  patch_failed : String → LabellerError

-- `connect` is newInClusterClientset; it gives the call that patches the labels of a node by a JSON merge.
module _ {W : Type 0}
    (connect : Result String (String → Map String → Call W (Result String (Unit {0})))) where
  unfoldable pub run : LabellerFlags → String → Command W LabellerError (Unit {0})
  unfolding node_labels
  run flags node_name = if is_empty node_name then fail no_node_name else (do
    patch_node_labels ← lift no_client connect
    call patch_failed (patch_node_labels node_name (node_labels flags)))
