-- ===== src/Rocm/StatusUpdater.antt =====
-- operators/fake-rocm-gpu-operator/internal/statusupdater/run.go: the topology that is rebuilt from the
-- annotations of all pods. The pod list and the ConfigMap API are parameters on the world `W`.
pub mod Rebuilt
pub mod RoundTrip
use sims.Prelude.{
  String, Bool, true, false, not, ◌&&◌, ◌||◌, List, [], ◌∷◌, ◌++◌, Option, none, some,
  if◌then◌else◌,
}
use sims.Prelude.Maps.{Map, lookup, insert, get_or}
use sims.Prelude.Results.{Result, ok, err, Call}
use sims.K8s.{Quantities, Container, Pod}
use sims.Text.{is_empty, trim_space}
use sims.Text.Split.{split}
use sims.Rocm.DevicePlugin.Annotate.{assigned_gpus_annotation}
use sims.Rocm.Topology.{Assignment, Topology, TopologyError, ConfigMaps, empty, save}

abbrev pub amd_gpu_resource : String
amd_gpu_resource = "amd.com/gpu"

-- top.Nodes[node] = append(top.Nodes[node], a)
unfoldable pub append_assignment : Topology → String → Assignment → Topology
append_assignment top node a = record top {
  nodes = insert top.nodes node (get_or [] top.nodes node ++ a ∷ []);
}

module _ (qs : Quantities) where
  abbrev pub asks : Option qs.Q → Bool
  asks none = false
  asks (some q) = not (qs.is_zero q)

  unfoldable pub has_gpu_request : Container qs.Q → Bool
  has_gpu_request c =
      asks (lookup c.limits amd_gpu_resource) || asks (lookup c.requests amd_gpu_resource)

  unfoldable pub first_gpu_container : List (Container qs.Q) → String
  unfolding has_gpu_request
  first_gpu_container [] = ""
  first_gpu_container (c ∷ cs) = if has_gpu_request c then c.name else first_gpu_container cs

  abbrev pub assignment_of : Pod qs.Q → String → String → Assignment
  assignment_of p container gpu_id = record {
    gpu_id = gpu_id;
    pod_namespace = p.namespace;
    pod_name = p.name;
    container = container;
  }

  -- The body of the loop over the pieces of the annotation.
  unfoldable pub add_piece : Pod qs.Q → String → String → Topology → Topology
  unfolding append_assignment
  add_piece p container piece top =
      let gpu_id = trim_space piece in
      if is_empty gpu_id
      then top
      else append_assignment top p.node_name (assignment_of p container gpu_id)

  -- `for gpuID := range strings.SplitSeq(assigned, ",")`
  unfoldable pub add_pieces : Pod qs.Q → String → List String → Topology → Topology
  unfolding add_piece
  add_pieces p container [] top = top
  add_pieces p container (piece ∷ pieces) top =
      add_pieces p container pieces (add_piece p container piece top)

  -- The body of the loop over the pods.
  unfoldable pub add_pod : Pod qs.Q → Topology → Topology
  unfolding add_pieces first_gpu_container
  add_pod p top =
      let assigned = get_or "" p.annotations assigned_gpus_annotation in
      if is_empty p.node_name
      then top
      else if is_empty assigned
      then top
      else add_pieces p (first_gpu_container p.containers) (split b',' assigned) top

  unfoldable pub add_pods : List (Pod qs.Q) → Topology → Topology
  unfolding add_pod
  add_pods [] top = top
  add_pods (p ∷ ps) top = add_pods ps (add_pod p top)

  module _ {W : Type 0} (api : ConfigMaps W)
      (list_pods : Call W (Result String (List (Pod qs.Q)))) where
    abbrev after_list : String → Result String (List (Pod qs.Q)) × W → W
    after_list namespace (err e, w) = w
    after_list namespace (ok pods, w) = (save api namespace (some (add_pods pods empty)) w).1

    -- A failure of the list or of the save is logged; the next tick tries again.
    unfoldable pub reconcile : String → W → W
    unfolding add_pods
    reconcile namespace w = after_list namespace (list_pods w)
