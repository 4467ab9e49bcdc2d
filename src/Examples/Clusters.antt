-- ===== src/Examples/Clusters.antt =====
-- operators/fake-rocm-gpu-operator/pkg/controller and pkg/kube at a small API server.
use sims.Prelude.{
  ℕ, suc, ◌*◌, ◌^◌, ◌<◌, String, Bool, true, false, List, [], ◌∷◌, Option, none, some, ◌≡◌, refl,
  sym, ap, arith, ◌↔◌, inl, inr, In, Distinct, eq_refl, ◌==◌, eqb, if◌then◌else◌,
}
use sims.Prelude.Int.{pos, leb_ℤ}
use sims.Prelude.Maps.{Map, lookup, get_or}
use sims.Prelude.Results.{Result, ok, err, Call}
use sims.K8s.{ApiError, not_found, Quantities, Pod, Node}
use sims.Text.{is_empty}
use sims.Rocm.Simulate.{effective_count}
use sims.Rocm.Controller.Objects.{Config, DeviceConfig, Key, Object, Kind, same_kind, same_key}
use sims.Rocm.Controller.Workloads.{normalize_partition}
use sims.Rocm.Controller.Reconcile.{
  Client, reconcile, reconcile_config, reconcile_plugin, reconcile_exporter, apply,
  delete_if_exists, ds_ready, enabled,
}
use sims.Rocm.Controller.Steps.{ClientLaws}
use sims.Rocm.Controller.Stages.{Established}
use sims.Rocm.Controller.Converges.{reconcile_establishes}
use sims.Kube.Namespace.{
  Namespaces, NamespaceLaws, merge_labels, ensure_namespace, ensure_namespace_labels, keys,
}
use sims.Kube.Snapshot.{vendor_of, first_vendor, rows, sort_pods, pod_snapshot}
use sims.Kube.Snapshot.Agreed.{selected, vendors_agree, Asked, gpu_pods_exact}
use sims.Kube.Wait.{poll, Rounds, here, round, poll_reaches}

abbrev pub config : Config
config = record {
  image = "sims:dev";
  image_pull_policy = "IfNotPresent";
  gpus_per_node = pos 2;
  product_name = "MI300X";
  gpu_memory_bytes = pos 1000;
  resource_name = "amd.com/gpu";
  default_node_selector = ("sims.io/gpu-vendor", "amd") ∷ [];
  default_utilization = "5-15";
  namespace = "sims";
}

-- The exporter is disabled, and each card has four partitions.
abbrev pub device_config : DeviceConfig
device_config = record {
  name = "default";
  spec = record {
    driver_enable = none;
    device_plugin = record { enable = none; image_pull_policy = "" };
    metrics_exporter_enable = some false;
    node_selector = [];
    init_container_image = "";
    compute_partition = record { mode = "cpx"; count = pos 4 };
  };
  status = record { device_plugin_ready = false; metrics_exporter_ready = false; conditions = [] };
}

pub eight :
    2
      * effective_count
          (normalize_partition device_config.spec.compute_partition).0
          (normalize_partition device_config.spec.compute_partition).1
    < 2 ^ 31
unfolding normalize_partition effective_count
eight = omega arith

-- An API server that keeps one object under each key.
abbrev Objects : Type 0
Objects = Key → Option Object

abbrev stored : Object → Objects → Result ApiError Object → Result ApiError (Unit {0}) × Objects
stored want w (err e) = (err e, w)
stored want w (ok o) = (ok tt, λ k. if same_key want.key k then some o else w k)

abbrev or_wanted : Object → Option Object → Object
or_wanted want none = want
or_wanted want (some o) = o

abbrev client : Client Objects
client = record {
  get_config = λ name w. (ok device_config, w);
  create_or_update = λ want f w. stored want w (f (or_wanted want (w want.key)));
  delete = λ k w. (ok tt, λ j. if same_key k j then none else w j);
  ds_status = λ namespace name w. (ok (pos 1, pos 1), w);
  update_status = λ cr w. (ok tt, w);
  set_owner = λ cr o. ok (record o { owner = some cr.name });
}

same_kind_refl : (k : Kind) → same_kind k k ≡ true
same_kind_refl Kind.daemon_set = refl
same_kind_refl Kind.deployment = refl
same_kind_refl Kind.service = refl

same_key_refl : (k : Key) → same_key k k ≡ true
same_key_refl k = rw (same_kind_refl k.kind, eq_refl k.name, eq_refl k.namespace) refl

stored_there :
    (want : Object) (w : Objects) (f : Object → Result ApiError Object) (r : Result ApiError Object)
    → f (or_wanted want (w want.key)) ≡ r
    → (stored want w r).0 ≡ ok tt
    → (current : Object) × (o : Object) × (f current ≡ ok o)
      × ((stored want w r).1 want.key ≡ some o)
stored_there want w f (err e) made h = cc
stored_there want w f (ok o) made h =
    (or_wanted want (w want.key), o, made, rw (same_key_refl want.key) refl)

stored_frame :
    (want : Object) (w : Objects) (r : Result ApiError Object) (k : Key)
    → same_key want.key k ≡ false
    → (stored want w r).1 k ≡ w k
stored_frame want w (err e) k d = refl
stored_frame want w (ok o) k d = rw d refl

ok_inj : {E A : Type 0} {a b : A} → ◌≡◌ {A = Result E A} (ok a) (ok b) → a ≡ b
ok_inj e = cc

client_laws : ClientLaws client
client_laws = record {
  find = λ w k. w k;
  set_owner_keeps = λ cr o o' e. (
    ap (λ (x : Object). x.labels) (sym (ok_inj e)),
    ap (λ (x : Object). x.spec) (sym (ok_inj e)),
  );
  applied = λ want f w h. stored_there want w f (f (or_wanted want (w want.key))) refl h;
  apply_frame = λ want f w k d. stored_frame want w (f (or_wanted want (w want.key))) k d;
  deleted = λ k w h. rw (same_key_refl k) refl;
  delete_missing = λ k w h. rw (same_key_refl k) refl;
  delete_frame = λ j w k d. rw d refl;
  ds_status_frame = λ namespace name w k. refl;
  update_status_frame = λ cr w k. refl;
}

abbrev nothing : Objects
nothing k = none

reconciled : (reconcile client config "default" nothing).0 ≡ ok tt
unfolding reconcile reconcile_config reconcile_plugin reconcile_exporter apply delete_if_exists
    ds_ready enabled
reconciled = refl

reconcile_establishes_example :
    Established client config client_laws
      (reconcile client config "default" nothing).1
      device_config
reconcile_establishes_example =
    reconcile_establishes client config client_laws "default" device_config nothing refl reconciled

abbrev Labels : Type 0
Labels = String → Option (Map String)

abbrev labelled : String → Map String → Labels → Labels
labelled name m w n = if n == name then some m else w n

abbrev namespaces : Namespaces Labels
namespaces = record {
  get = λ name w. (elim (w name) [ none ↦ err not_found | some m ↦ ok m ], w);
  create = λ name m w. (ok tt, labelled name m w);
  update = λ name m w. (ok tt, labelled name m w);
  delete = λ name w. (ok tt, λ n. if n == name then none else w n);
}

namespace_laws : NamespaceLaws namespaces
namespace_laws = record {
  labels_of = λ w name. w name;
  got = λ name m w e. found (w name) m e;
  create_stores = λ name labels w e. (labels, rw (eq_refl name) refl, λ k v h. h);
  update_stores = λ name m w e. rw (eq_refl name) refl;
}
  where
    found :
        (o : Option (Map String)) (m : Map String)
        → elim o as (λ o. Result ApiError (Map String)) [ none ↦ err not_found | some m ↦ ok m ]
          ≡ ok m
        → o ≡ some m
    found none m e = cc
    found (some x) m e = ap (λ (y : Map String). some y) (ok_inj e)

abbrev wanted : Map String
wanted = ("pod-security.kubernetes.io/enforce", "privileged") ∷ ("team", "gpu") ∷ []

other_names : {A : Type 0} → ◌≡◌ {A = String} "pod-security.kubernetes.io/enforce" "team" → A
other_names e = cc

wanted-Distinct : Distinct (keys wanted)
wanted-Distinct = (λ m. elim m [ inl e ↦ other_names e | inr n ↦ n ], (λ n. n, tt))

-- The namespace is there, with one label of its own.
abbrev existing : Labels
existing name = some (("team", "cpu") ∷ [])

ensured : (ensure_namespace namespaces "gpu" wanted existing).0 ≡ ok tt
unfolding ensure_namespace merge_labels lookup
ensured = refl

team_wanted : lookup wanted "team" ≡ some "gpu"
unfolding lookup
team_wanted = refl

ensure_namespace_labels_example :
    (m : Map String) × ((ensure_namespace namespaces "gpu" wanted existing).1 "gpu" ≡ some m)
    × (get_or "" m "team" ≡ "gpu")
unfolding namespace_laws
ensure_namespace_labels_example =
    ensure_namespace_labels namespaces namespace_laws "gpu" wanted "team" "gpu" existing
      wanted-Distinct team_wanted ensured

-- Quantities that are whole numbers.
abbrev whole : Quantities
whole = record {
  Q = ℕ;
  is_zero = λ q. eqb q 0;
  as_int64 = λ q. some (pos q);
  at_least = λ q z. leb_ℤ z (pos q);
}

abbrev nodes : List (Node ℕ)
nodes =
    record { name = "control"; labels = []; capacity = []; kubelet_version = "v1.31.0" }
    ∷ record {
      name = "worker";
      labels = ("sims.io/gpu-vendor", "amd") ∷ [];
      capacity = ("amd.com/gpu", 8) ∷ [];
      kubelet_version = "v1.31.0";
    }
    ∷ []

vendors_agree_example :
    first_vendor whole (selected whole nodes)
    ≡ (if is_empty (vendor_of whole "" nodes) then none else some (vendor_of whole "" nodes))
vendors_agree_example = vendors_agree whole nodes

abbrev train : Pod ℕ
train = record {
  namespace = "default";
  name = "train";
  node_name = "worker";
  phase = "Running";
  annotations = [];
  containers = record { name = "main"; limits = ("amd.com/gpu", 2) ∷ []; requests = [] } ∷ [];
}

gpu_pods_exact_example :
    In (pod_snapshot whole train (pos 2)) (sort_pods whole (rows whole "amd.com/gpu" (train ∷ [])))
    ↔ Asked whole "amd.com/gpu" (train ∷ []) (pod_snapshot whole train (pos 2))
gpu_pods_exact_example =
    gpu_pods_exact whole "amd.com/gpu" (train ∷ []) (pod_snapshot whole train (pos 2))

-- A cluster that is ready at the third check.
abbrev third_check : Call ℕ (Result String Bool)
third_check w = (ok (eqb w 2), w)

abbrev tick : Call ℕ Bool
tick w = (true, suc w)

two-Rounds : Rounds third_check tick 2 0 2
two-Rounds = round 1 0 2 refl refl (round 0 1 2 refl refl (here 2))

poll_reaches_example : poll third_check tick 5 0 ≡ some (ok tt, 2)
poll_reaches_example = poll_reaches third_check tick 2 5 0 2 two-Rounds refl (omega arith)

waited : poll third_check tick 5 0 ≡ some (ok tt, 2)
unfolding poll
waited = refl
