-- ===== src/Examples/Topologies.antt =====
-- operators/fake-rocm-gpu-operator: the topology, the exporter and the plugin's server at small APIs.
use sims.Prelude.{
  ℕ, suc, String, Bool, true, false, List, [], ◌∷◌, Option, none, some, ◌≡◌, refl, ◌∙◌, sym, ap,
  ◌⊎◌, inl, inr, In, Bool-cases, eq_iff, eq_refl, ◌==◌, if◌then◌else◌, some_inj,
}
use sims.Prelude.Int.{pos}
use sims.Prelude.Maps.{Map}
use sims.Prelude.Results.{Result, ok, err, Call}
use sims.K8s.{ApiError, not_found}
use sims.Rocm.DevicePlugin.Server.{Server}
use sims.Rocm.DevicePlugin.Lifecycle.{Host, run}
use sims.Rocm.DevicePlugin.Stopped.{HostLaws, Left, run_leaves_nothing}
use sims.Rocm.Topology.{
  Assignment, Topology, ConfigMap, ConfigMaps, get_failed, empty, load, save, find_assignment,
}
use sims.Rocm.Topology.RoundTrip.{ConfigMapLaws, SameNodes, load-save}
use sims.Rocm.StatusUpdater.{add_pods}
use sims.Rocm.StatusUpdater.Rebuilt.{on_node}
use sims.Rocm.StatusUpdater.RoundTrip.{found_is_listed}
use sims.Rocm.Simulate.{Gpu}
use sims.Rocm.Exporter.{Cache, refresh, topology_sampler}
use sims.Rocm.Exporter.Sampled.{Shows, sampler-Shows}
use sims.Rocm.Exporter.Refreshed.{Refreshed, refresh_publishes}
use sims.Examples.Codec.{encode, decode, decode-encode}
use sims.Examples.Floats.{hundredths}
use sims.Examples.Assignments.{whole, train}

-- ConfigMaps by namespace and name.
abbrev Store : Type 0
Store = String → String → Option ConfigMap

abbrev named : String → Option ConfigMap → Option ConfigMap
named name none = none
named name (some cm) = if cm.name == name then some cm else none

abbrev written_to : String → ConfigMap → Store → Store
written_to ns cm w a b = if a == ns then (if b == cm.name then some cm else w a b) else w a b

abbrev config_maps : ConfigMaps Store
config_maps = record {
  get = λ ns name w. (elim (named name (w ns name)) [ none ↦ err not_found | some cm ↦ ok cm ], w);
  create = λ ns cm w. (ok tt, written_to ns cm w);
  update = λ ns cm w. (ok tt, written_to ns cm w);
  marshal = encode;
  unmarshal = decode;
}

stores :
    (ns : String) (cm : ConfigMap) (w : Store)
    → named cm.name (written_to ns cm w ns cm.name) ≡ some cm
stores ns cm w = rw (eq_refl ns, eq_refl cm.name, eq_refl cm.name) refl

none_is_no_some : {A B : Type 0} {a : A} → ◌≡◌ {A = Option A} none (some a) → B
none_is_no_some e = cc

name_of :
    (name : String) (o : Option ConfigMap) (cm : ConfigMap)
    → named name o ≡ some cm
    → cm.name ≡ name
name_of name none cm e = cc
name_of name (some x) cm e = elim (Bool-cases (x.name == name)) [
  | inl same ↦
      ap (λ (c : ConfigMap). c.name) (sym (some_inj (rw same at e))) ∙ (eq_iff x.name name).0 same
  | inr other ↦ none_is_no_some (rw other at e)
]

config_map_laws : ConfigMapLaws config_maps
config_map_laws = record {
  stored = λ w ns name. named name (w ns name);
  get_world = λ ns name w. refl;
  get_reads = λ ns name w. inl refl;
  create_stores = λ ns cm w e. stores ns cm w;
  update_stores = λ ns cm w e. stores ns cm w;
  stored_name = λ w ns name cm e. name_of name (w ns name) cm e;
  unmarshal-marshal =
      λ t body e. let (full, there) = decode-encode t body e in (full, (t, there, λ node. refl));
}

abbrev trained : Assignment
trained = record {
  gpu_id = "gpu-0";
  pod_namespace = "default";
  pod_name = "train";
  container = "main";
}

abbrev two_nodes : Topology
two_nodes = record { nodes = ("node", trained ∷ []) ∷ ("spare", []) ∷ [] }

abbrev text : String
text = elim (encode two_nodes) [ ok body ↦ body | err e ↦ "" ]

abbrev no_config_maps : Store
no_config_maps ns name = none

saved : (save config_maps "sims" (some two_nodes) no_config_maps).0 ≡ ok tt
unfolding save
saved = refl

load-save_example :
    let w' = (save config_maps "sims" (some two_nodes) no_config_maps).1 in
    ((t' : Topology) × ((load config_maps "sims" w').0 ≡ ok t') × SameNodes two_nodes t')
    ⊎ ((s : String) × ((load config_maps "sims" w').0 ≡ err (get_failed (ApiError.other s))))
load-save_example =
    load-save config_maps config_map_laws "sims" two_nodes text no_config_maps refl saved

abbrev holding : String → Store
holding body ns name =
    some
      (record { name = name; namespace = ns; labels = []; content = ("topology.yaml", body) ∷ [] })

abbrev cache : Cache hundredths
cache = record {
  namespace = "sims";
  hostname = "node";
  default_util = "5-15";
  state = record { topology = empty; pod_ranges = [] };
}

abbrev get_pod : String → String → Call Store (Result ApiError (Map String))
get_pod ns name w = (ok [], w)

abbrev gpus : List Gpu
gpus =
    record {
      id = "gpu-0";
      serial_number = "SIM-node-00-p0";
      card_series = "MI300X";
      card_model = "MI300X";
      memory_total = pos 1000;
      partition_mode = "spx";
      partition_id = "0";
    }
    ∷ []

abbrev draw : Call ℕ hundredths.F
draw n = (some 50, suc n)

sampler-Shows_example :
    Shows hundredths cache.state "node" gpus
      (topology_sampler hundredths draw cache.state gpus "node" 0)
sampler-Shows_example = sampler-Shows hundredths draw cache.state gpus "node" 0

-- A host with one socket, where the kubelet does not answer.
record Machine : Type 0 where
  serves : Bool
  listens : Bool
  bound : Bool

abbrev host : Host Machine
host = record {
  join = λ dir file. "/run/amd-gpu.sock";
  remove = λ path w. (ok tt, record w { bound = false });
  listen = λ path w. (ok tt, record w { listens = true; bound = true });
  serve = λ path w. record w { serves = true };
  graceful_stop = λ w. record w { serves = false };
  close = λ path w. record w { listens = false };
  dial_register = λ path request w. (err "no answer", w);
  wait_done = λ w. w;
}

host_laws : HostLaws host
host_laws = record {
  serving = λ w. w.serves;
  listening = λ w p. w.listens;
  socket = λ w p. w.bound;
  named = λ dir. refl;
  stops = λ w. refl;
  close_serving = λ p w. refl;
  closes = λ p w. refl;
  remove_serving = λ p w. refl;
  remove_listening = λ p w. refl;
  removed = λ p w. inr refl;
  not_listening = λ p w e h. cc;
}

abbrev quiet : Machine
quiet = record { serves = false; listens = false; bound = true }

abbrev server : Server
server = record {
  resource_name = "amd.com/gpu";
  socket_dir = "/run";
  gpu_count = pos 1;
  devices = record { id = "gpu-0"; health = "Healthy" } ∷ [];
  grpc_server = false;
  listener = false;
  stop_updates = false;
}

run_leaves_nothing_example : Left host host_laws "v1beta1" server (run host "v1beta1" server quiet)
unfolding host_laws
run_leaves_nothing_example =
    run_leaves_nothing host host_laws "v1beta1" server quiet refl refl refl refl

found_is_listed_example :
    ((find_assignment (add_pods whole (train ∷ []) empty) "node" "gpu-0" ≡ none)
      × ((a : Assignment) → In a (on_node whole "node" (train ∷ [])) → ¬ (a.gpu_id ≡ "gpu-0")))
    ⊎ ((a : Assignment) × (find_assignment (add_pods whole (train ∷ []) empty) "node" "gpu-0"
          ≡ some a)
        × In a (on_node whole "node" (train ∷ []))
        × (a.gpu_id ≡ "gpu-0"))
found_is_listed_example = found_is_listed whole (train ∷ []) "node" "gpu-0" (λ e. cc)

refresh_publishes_example :
    Refreshed hundredths config_maps get_pod
      (load config_maps "sims" (holding text)).0
      cache
      (refresh hundredths config_maps get_pod cache (holding text)).0
refresh_publishes_example = refresh_publishes hundredths config_maps get_pod cache (holding text)
