-- ===== src/Dcgm/Cache.antt =====
-- operators/fake-dcgm-extras/internal/exporter/cache.go: the GPU pods of this node. The pod list is a
-- parameter; the lock around the list of assignments makes its publication one assignment.
use sims.Prelude.{ℕ, String, Bool, false, not, ◌||◌, List, [], ◌∷◌, none, some, if◌then◌else◌}
use sims.Prelude.Maps.{Map, lookup, get_or}
use sims.Prelude.Results.{rounds, Result, ok, err, Call}
use sims.K8s.{Quantities, Container, Pod}
use sims.Text.{is_empty, append}

abbrev pub utilization_annotation : String
utilization_annotation = "run.ai/simulated-gpu-utilization"

abbrev pub gpu_request_name : String
gpu_request_name = "nvidia.com/gpu"

pub record NodeAssignment : Type 0 where
  pub pod_name : String
  pub namespace : String
  pub container : String
  pub util : String

pub record Cache : Type 0 where
  pub hostname : String
  pub assignments : List NodeAssignment

unfoldable pub new_cache : String → Cache
new_cache hostname = record { hostname = hostname; assignments = [] }

module _ (qs : Quantities) where
  -- if q, ok := list[gpuRequestName]; ok && !q.IsZero()
  abbrev pub asks : Map qs.Q → Bool
  asks list = elim (lookup list gpu_request_name) [ none ↦ false | some q ↦ not (qs.is_zero q) ]

  unfoldable pub has_gpu_request : Container qs.Q → Bool
  has_gpu_request c = asks c.limits || asks c.requests

  unfoldable pub first_gpu_container : List (Container qs.Q) → String
  unfolding has_gpu_request
  first_gpu_container [] = ""
  first_gpu_container (c ∷ cs) = if has_gpu_request c then c.name else first_gpu_container cs

  abbrev pub assignment_of : Pod qs.Q → String → NodeAssignment
  assignment_of p container = record {
    pod_name = p.name;
    namespace = p.namespace;
    container = container;
    util = get_or "" p.annotations utilization_annotation;
  }

  -- The loop over the pods, which leaves out those without a GPU container.
  unfoldable pub assignments_of : List (Pod qs.Q) → List NodeAssignment
  unfolding first_gpu_container
  assignments_of [] = []
  assignments_of (p ∷ ps) =
      let container = first_gpu_container p.containers in
      let rest = assignments_of ps in
      if is_empty container then rest else assignment_of p container ∷ rest

  -- A list that fails is logged, and the cache stays.
  abbrev pub listed : Cache → Result String (List (Pod qs.Q)) → Cache
  listed c (err e) = c
  listed c (ok pods) = record c { assignments = assignments_of pods }

  -- `list_pods` takes the field selector: the pods whose spec.nodeName is the host's.
  unfoldable pub refresh :
      {W : Type 0} → (String → Call W (Result String (List (Pod qs.Q)))) → Cache → W → Cache × W
  unfolding assignments_of
  refresh list_pods c w =
      let (r, w') = list_pods (append "spec.nodeName=" c.hostname) w in (listed c r, w')

  module _ {W : Type 0} (list_pods : String → Call W (Result String (List (Pod qs.Q)))) where
    abbrev pub refresh_both : Cache × W → Cache × W
    refresh_both (c, w) = refresh list_pods c w

    -- Run of the cache, whose context is done after `ticks` ticks.
    unfoldable pub run_cache : ℕ → Cache × W → Cache × W
    unfolding refresh rounds
    run_cache ticks state = rounds refresh_both ticks state
