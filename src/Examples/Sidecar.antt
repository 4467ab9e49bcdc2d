-- ===== src/Examples/Sidecar.antt =====
-- operators/fake-dcgm-extras at a node of two slots with one GPU pod, with numbers in hundredths for
-- float64, and the node selector of operators/fake-rocm-gpu-operator at two pairs.
use sims.Prelude.{ℕ, suc, String, List, [], ◌∷◌, some, ◌≡◌, refl, get_elem?, All, eqb}
use sims.Prelude.Int.{pos, leb_ℤ}
use sims.Prelude.Maps.{insert_all}
use sims.Prelude.Results.{Result, ok, Call}
use sims.K8s.{Quantities, Pod}
use sims.Text.Decimal.{itoa}
use sims.Rocm.Simulate as Amd
use sims.Rocm.NodeSelector.{parse_node_selector, parse_node_selector-text, selector_text, IsPair}
use sims.Dcgm.Registry.{Snapshot}
use sims.Dcgm.Cache.{Cache, refresh}
use sims.Dcgm.Sample.{GpuIdentity, gpu_at, bare, sampler, util_range, fill_loaded}
use sims.Dcgm.Shown.{gpu_pods, Holds, slot_shows_pod}
use sims.Dcgm.Readings.{IsRange, util_range-IsRange, fill_loaded_mirrors}
use sims.Examples.Floats.{hundredths, hundredths_ieee}
open hundredths use {F, lit}

-- Quantities are whole numbers.
abbrev counts : Quantities
counts = record {
  Q = ℕ;
  is_zero = λ n. eqb n 0;
  as_int64 = λ n. some (pos n);
  at_least = λ n z. leb_ℤ z (pos n);
}

abbrev train : Pod ℕ
train = record {
  namespace = "default";
  name = "train";
  node_name = "node";
  phase = "Running";
  annotations = ("run.ai/simulated-gpu-utilization", "30-50") ∷ [];
  containers = record { name = "main"; limits = ("nvidia.com/gpu", 1) ∷ []; requests = [] } ∷ [];
}

abbrev draw : Call ℕ F
draw n = (some 50, suc n)

abbrev list_pods : String → Call ℕ (Result String (List (Pod ℕ)))
list_pods selector w = (ok (train ∷ []), w)

abbrev cache : Cache
cache = record { hostname = "node"; assignments = [] }

abbrev slots : List GpuIdentity
slots = gpu_at "node" "Tesla T4" "" 0 ∷ gpu_at "node" "Tesla T4" "" 1 ∷ []

slot_shows_pod_example :
    (s : Snapshot hundredths) × (get_elem?
        (sampler hundredths draw (refresh counts list_pods cache 0).0.assignments slots "node" 0)
        0
      ≡ some s)
    × (s.gpu ≡ itoa 0)
    × (s.uuid ≡ (gpu_at "node" "Tesla T4" "" 0).uuid)
    × (s.hostname ≡ "node")
    × Holds hundredths draw counts (get_elem? (gpu_pods counts (train ∷ [])) 0) s
slot_shows_pod_example =
    slot_shows_pod hundredths draw counts list_pods cache 0 (train ∷ []) slots 0
      (gpu_at "node" "Tesla T4" "" 0) "node" 0 refl ((refl, tt), tt) refl

util_range-IsRange_example : IsRange hundredths hundredths_ieee (util_range hundredths "NaN-NaN")
util_range-IsRange_example = util_range-IsRange hundredths hundredths_ieee "NaN-NaN"

abbrev amd_gpu : Amd.Gpu
amd_gpu = record {
  id = "gpu-0";
  serial_number = "SIM-node-00-p0";
  card_series = "MI300X";
  card_model = "MI300X";
  memory_total = pos 1000;
  partition_mode = "spx";
  partition_id = "0";
}

abbrev slot_0 : Snapshot hundredths
slot_0 = bare hundredths (gpu_at "node" "Tesla T4" "" 0) "node"

fill_loaded_mirrors_example :
    let n = (fill_loaded hundredths draw slot_0 (lit 70 0) 0).0 in
    let a = (Amd.sample_loaded hundredths draw amd_gpu (lit 70 0) 0).0 in
    (n.gpu_temp ≡ a.junction_temp)
    × (n.power_usage ≡ a.package_power)
    × (n.fan_speed ≡ a.fan_speed)
    × (n.pcie_tx_throughput ≡ a.pcie_bandwidth)
    × (n.pcie_rx_throughput ≡ a.pcie_bandwidth)
fill_loaded_mirrors_example =
    fill_loaded_mirrors hundredths hundredths_ieee draw slot_0 amd_gpu (lit 70 0) 0 (refl, refl)

pairs-IsPair : All IsPair (("sims", "amd") ∷ ("a", "b") ∷ [])
pairs-IsPair = (
  (
    refl,
    (refl, (refl, (refl, (refl, tt)))),
    (refl, (refl, (refl, (refl, tt)))),
    (refl, (refl, (refl, tt))),
  ),
  ((refl, (refl, tt), (refl, tt), (refl, tt)), tt),
)

parse_node_selector-text_example :
    parse_node_selector (selector_text (("sims", "amd") ∷ ("a", "b") ∷ []))
    ≡ ok (insert_all [] (("sims", "amd") ∷ ("a", "b") ∷ []))
parse_node_selector-text_example =
    parse_node_selector-text ("sims", "amd") (("a", "b") ∷ []) pairs-IsPair
