-- ===== src/Kube/Snapshot.antt =====
-- pkg/kube/snapshot.go and vendor.go: what a cluster holds, and which vendor's GPUs. The node and pod
-- lists, and the arithmetic of quantities, are parameters.
pub mod Requested
pub mod Agreed
use sims.Prelude.{
  ℕ, String, Bool, true, false, ◌&&◌, List, [], ◌∷◌, map, Option, none, some, if◌then◌else◌, ◌==◌,
  ◌≡◌, refl, ◌∙◌, sym, ap, In, inl, inr, ◌⊎◌, Bool-cases,
}
use sims.Prelude.Int.{ℤ, pos, is_zero, ◌+ℤ◌, wrap64}
use sims.Prelude.Maps.{Map, lookup, get_or}
use sims.Prelude.Results.{Result, ok, err, Call}
use sims.K8s.{Quantities, Container, Pod, Node}
use sims.Text.{append, is_empty, is_empty_iff}
use sims.Text.Order.{str_leb}

abbrev pub gpu_vendor_label : String
gpu_vendor_label = "sims.io/gpu-vendor"

pub record NodeSnapshot : Type 0 where
  pub name : String
  pub role : String
  pub gpu_capacity : ℤ

pub record PodSnapshot : Type 0 where
  pub namespace : String
  pub name : String
  pub node : String
  pub gpus : ℤ
  pub phase : String

pub record ClusterSnapshot : Type 0 where
  pub vendor : String
  pub k8s_version : String
  pub nodes : List NodeSnapshot
  pub gpu_pods : List PodSnapshot

pub data SnapshotError : Type 0 where
  list_nodes_failed : String → SnapshotError
  list_pods_failed : String → SnapshotError
  no_vendor : SnapshotError

module _ (qs : Quantities) where
  open qs use {Q, as_int64}

  -- The first kubelet version that is not empty, kept once it is there.
  unfoldable pub version_of : String → List (Node Q) → String
  version_of seen [] = seen
  version_of seen (n ∷ ns) = version_of (if is_empty seen then n.kubelet_version else seen) ns

  -- The loop's vendor: the first label that is not empty.
  unfoldable pub vendor_of : String → List (Node Q) → String
  vendor_of seen [] = seen
  vendor_of seen (n ∷ ns) =
      vendor_of
        (if is_empty seen
          then (if is_empty (get_or "" n.labels gpu_vendor_label)
              then seen
              else get_or "" n.labels gpu_vendor_label)
          else seen)
        ns

  abbrev pub int_of : Option Q → ℤ
  int_of none = pos 0
  int_of (some q) = elim (as_int64 q) [ none ↦ pos 0 | some v ↦ v ]

  abbrev pub role_of : Node Q → String
  role_of n = elim (lookup n.labels "node-role.kubernetes.io/control-plane") [
    | none ↦ "worker"
    | some v ↦ "control-plane"
  ]

  abbrev pub node_snapshot : String → Node Q → NodeSnapshot
  node_snapshot resource n = record {
    name = n.name;
    role = role_of n;
    gpu_capacity = if is_empty resource then pos 0 else int_of (lookup n.capacity resource);
  }

  -- The loop of podGPURequest, from a total on.
  unfoldable pub pod_gpu_request : String → ℤ → List (Container Q) → ℤ
  pod_gpu_request resource total [] = total
  pod_gpu_request resource total (c ∷ cs) =
      pod_gpu_request resource
        (elim (lookup c.limits resource) [
          | none ↦ total
          | some q ↦ elim (as_int64 q) [ none ↦ total | some v ↦ wrap64 (total +ℤ v) ]
        ])
        cs

  abbrev pub pod_snapshot : Pod Q → ℤ → PodSnapshot
  pod_snapshot p gpus = record {
    namespace = p.namespace;
    name = p.name;
    node = p.node_name;
    gpus = gpus;
    phase = p.phase;
  }

  unfoldable pub rows : String → List (Pod Q) → List PodSnapshot
  unfolding pod_gpu_request
  rows resource [] = []
  rows resource (p ∷ ps) =
      let gpus = pod_gpu_request resource (pos 0) p.containers in
      let rest = rows resource ps in if is_zero gpus then rest else pod_snapshot p gpus ∷ rest

  -- By namespace, and by name within one. No two pods of a cluster share both.
  abbrev pub comes_first : PodSnapshot → PodSnapshot → Bool
  comes_first a b =
      if a.namespace == b.namespace then str_leb a.name b.name else str_leb a.namespace b.namespace

  unfoldable pub insert_pod : PodSnapshot → List PodSnapshot → List PodSnapshot
  insert_pod p [] = p ∷ []
  insert_pod p (q ∷ qs) =
      let rest = insert_pod p qs in if comes_first p q then p ∷ q ∷ qs else q ∷ rest

  unfoldable pub sort_pods : List PodSnapshot → List PodSnapshot
  unfolding insert_pod
  sort_pods [] = []
  sort_pods (p ∷ ps) = insert_pod p (sort_pods ps)

  abbrev pub with_pods :
      {W : Type 0}
      → ClusterSnapshot
      → String
      → Result String (List (Pod Q)) × W
      → Result SnapshotError ClusterSnapshot × W
  with_pods snap resource (err e, w) = (err (list_pods_failed e), w)
  with_pods snap resource (ok pods, w) =
      (ok (record snap { gpu_pods = sort_pods (rows resource pods) }), w)

  abbrev pub resource_of : String → String
  resource_of vendor = if is_empty vendor then "" else append vendor ".com/gpu"

  abbrev pub bare : List (Node Q) → ClusterSnapshot
  bare nodes = record {
    vendor = vendor_of "" nodes;
    k8s_version = version_of "" nodes;
    nodes = map (node_snapshot (resource_of (vendor_of "" nodes))) nodes;
    gpu_pods = [];
  }

  module _ {W : Type 0} (list_nodes : Call W (Result String (List (Node Q))))
      (list_pods : Call W (Result String (List (Pod Q)))) where
    abbrev pub with_nodes :
        Result String (List (Node Q)) × W → Result SnapshotError ClusterSnapshot × W
    with_nodes (err e, w) = (err (list_nodes_failed e), w)
    with_nodes (ok nodes, w) =
        if is_empty (resource_of (vendor_of "" nodes))
        then (ok (bare nodes), w)
        else with_pods (bare nodes) (resource_of (vendor_of "" nodes)) (list_pods w)

    unfoldable pub snapshot : Call W (Result SnapshotError ClusterSnapshot)
    unfolding version_of vendor_of sort_pods rows
    snapshot w = with_nodes (list_nodes w)

  -- The loop of detectVendor, over the nodes that carry the label.
  unfoldable pub first_vendor : List (Node Q) → Option String
  first_vendor [] = none
  first_vendor (n ∷ ns) =
      if is_empty (get_or "" n.labels gpu_vendor_label)
      then first_vendor ns
      else some (get_or "" n.labels gpu_vendor_label)

  abbrev pub detected : Result String (List (Node Q)) → Result SnapshotError String
  detected (err e) = err (list_nodes_failed e)
  detected (ok nodes) = elim (first_vendor nodes) [ none ↦ err no_vendor | some v ↦ ok v ]

  -- `list_labelled` lists the nodes that carry the label.
  unfoldable pub detect_vendor :
      {W : Type 0} → Call W (Result String (List (Node Q))) → Call W (Result SnapshotError String)
  unfolding first_vendor
  detect_vendor list_labelled w = let (r, w') = list_labelled w in (detected r, w')
