-- ===== src/Examples/Assignments.antt =====
-- operators/fake-rocm-gpu-operator: the annotator and the status-updater at concrete pods.
use sims.Prelude.{
  ℕ, String, List, [], ◌∷◌, some, ◌≡◌, ◌≢◌, refl, sym, ap, ◌⊎◌, ◌↔◌, inl, inr, In, Distinct,
  Bool-cases, eq_iff, eq_refl, ◌==◌, eqb, if◌then◌else◌,
}
use sims.Prelude.Int.{pos, leb_ℤ}
use sims.Prelude.Maps.{Map, lookup, insert, get_or, lookup-insert, lookup-insert_self}
use sims.Prelude.Results.{Result, ok, err}
use sims.K8s.{ApiError, Quantities, Pod}
use sims.Text.Order.{IsSorted}
use sims.Rocm.DevicePlugin.Annotate.{
  PodApi, PodResources, annotate_pod, reconcile, collect_devices_for_resource,
  assigned_gpus_annotation,
}
use sims.Rocm.DevicePlugin.Annotated.{PodApiLaws, annotate_pod_writes, reconcile_keeps}
use sims.Rocm.DevicePlugin.Rounds.{Annotator, run_annotator, run_annotator_keeps}
use sims.Rocm.DevicePlugin.Collected.{IsAllocated, collected_exact}
use sims.Rocm.Topology.{Assignment, empty}
use sims.Rocm.StatusUpdater.{add_pods}
use sims.Rocm.StatusUpdater.Rebuilt.{on_node, rebuilt_exact}

-- A pod with two devices, one of them in both of its containers.
abbrev held : PodResources
held = record {
  namespace = "default";
  name = "train";
  containers =
      (record { resource_name = "amd.com/gpu"; device_ids = "gpu-1" ∷ "gpu-0" ∷ [] } ∷ [])
      ∷ (record { resource_name = "amd.com/gpu"; device_ids = "gpu-1" ∷ [] } ∷ [])
      ∷ [];
}

collected_exact_example :
    let devs = collect_devices_for_resource held "amd.com/gpu" in
    IsSorted devs
    × Distinct devs
    × ((id : String) → In id devs ↔ IsAllocated "amd.com/gpu" id held.containers)
collected_exact_example = collected_exact held "amd.com/gpu"

abbrev Annotations : Type 0
Annotations = String → String → Map String

abbrev patched : Map String → List (String × String) → Map String
patched m [] = m
patched m ((k, v) ∷ r) = patched (insert m k v) r

abbrev pods : PodApi Annotations
pods = record {
  get = λ ns name w. (ok (w ns name), w);
  patch = λ ns name entries w. (
    ok tt,
    λ a b. if a == ns then (if b == name then patched (w a b) entries else w a b) else w a b,
  );
  list_resources = λ w. (ok (held ∷ []), w);
}

others_kept :
    (ns name k v : String) (w : Annotations) (a b j : String)
    → (a ≢ ns) ⊎ ((b ≢ name) ⊎ (j ≢ k))
    → get_or "" ((pods.patch ns name ((k, v) ∷ []) w).1 a b) j ≡ get_or "" (w a b) j
others_kept ns name k v w a b j d = elim (Bool-cases (a == ns)) [
  | inr other ↦ rw other refl
  | inl here ↦ elim (Bool-cases (b == name)) [
    | inr other ↦ rw (here, other) refl
    | inl pod ↦ elim (Bool-cases (k == j)) [
      | inr other ↦ rw (here, pod, get_or, lookup-insert (w a b) k j v, other) refl
      | inl key ↦ absurd (elim d [
        | inl n ↦ n ((eq_iff a ns).0 here)
        | inr e ↦ elim e [
          | inl n ↦ n ((eq_iff b name).0 pod)
          | inr n ↦ n (sym ((eq_iff k j).0 key))
        ]
      ])
    ]
  ]
]

pod_laws : PodApiLaws pods
pod_laws = record {
  value = λ w ns name key. get_or "" (w ns name) key;
  get_keeps = λ ns name w ns' name' key'. refl;
  get_reads = λ ns name w m e key.
      ap (λ (r : Result ApiError (Map String)). elim r [ ok x ↦ get_or "" x key | err x ↦ "" ])
        (sym e);
  patch_writes = λ ns name key v w e.
      rw (eq_refl ns, eq_refl name, get_or, lookup-insert_self (w ns name) key v) refl;
  patch_keeps = others_kept;
  list_keeps = λ w ns' name' key'. refl;
}

abbrev no_annotations : Annotations
no_annotations ns name = []

annotated : (annotate_pod pods "default" "train" "gpu-0,gpu-1" no_annotations).0 ≡ ok tt
unfolding annotate_pod lookup
annotated = refl

annotate_pod_writes_example :
    get_or ""
      ((annotate_pod pods "default" "train" "gpu-0,gpu-1" no_annotations).1 "default" "train")
      assigned_gpus_annotation
    ≡ "gpu-0,gpu-1"
unfolding pod_laws
annotate_pod_writes_example =
    annotate_pod_writes pods pod_laws "default" "train" "gpu-0,gpu-1" no_annotations annotated

-- The annotator with its defaults.
abbrev annotator : Annotator
annotator = record { resource_name = ""; socket_path = ""; reconcile_interval = pos 0 }

run_annotator_keeps_example :
    get_or ""
      ((run_annotator pods (λ socket. ok tt) annotator 1 no_annotations).1 "default" "train")
      "owner"
    ≡ get_or "" (no_annotations "default" "train") "owner"
unfolding pod_laws
run_annotator_keeps_example =
    run_annotator_keeps pods pod_laws (λ socket. ok tt) annotator 1 no_annotations "default" "train"
      "owner" (inl (λ e. cc))

reconcile_keeps_example :
    get_or "" (reconcile pods "amd.com/gpu" no_annotations "default" "train") "owner"
    ≡ get_or "" (no_annotations "default" "train") "owner"
unfolding pod_laws
reconcile_keeps_example =
    reconcile_keeps pods pod_laws "amd.com/gpu" (held ∷ []) no_annotations "default" "train" "owner"
      refl (inl (λ e. cc))

-- Quantities that are whole numbers.
abbrev pub whole : Quantities
whole = record {
  Q = ℕ;
  is_zero = λ q. eqb q 0;
  as_int64 = λ q. some (pos q);
  at_least = λ q z. leb_ℤ z (pos q);
}

abbrev pub train : Pod ℕ
train = record {
  namespace = "default";
  name = "train";
  node_name = "node";
  phase = "Running";
  annotations = (assigned_gpus_annotation, "gpu-0,gpu-1") ∷ [];
  containers = record { name = "main"; limits = ("amd.com/gpu", 2) ∷ []; requests = [] } ∷ [];
}

rebuilt_exact_example :
    get_or [] (add_pods whole (train ∷ []) empty).nodes "node" ≡ on_node whole "node" (train ∷ [])
rebuilt_exact_example = rebuilt_exact whole (train ∷ []) "node" (λ e. cc)

abbrev first : Assignment
first = record {
  gpu_id = "gpu-0";
  pod_namespace = "default";
  pod_name = "train";
  container = "main";
}
