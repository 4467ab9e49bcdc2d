-- ===== src/Rocm/Exporter/Sampled.antt =====
-- operators/fake-rocm-gpu-operator/internal/exporter: what a scrape shows of the cluster.
use sims.Prelude.{String, List, [], ◌∷◌, Option, none, some, ◌≡◌, refl}
use sims.Prelude.Float.{Float64}
use sims.Prelude.Results.{Call}
use sims.Rocm.Simulate.{Gpu, sample_idle}
use sims.Rocm.Topology.{Assignment, find_assignment}
use sims.Rocm.Metrics.{Snapshot}
use sims.Rocm.Exporter.{
  WorldState, topology_sampler, snapshot_of, snapshot_from_idle, snapshot_from_loaded,
}

module _ (fl : Float64) where
  -- What a snapshot says of the pod that holds the GPU.
  abbrev pub Labelled : Option Assignment → Gpu → Snapshot fl → Type 0
  Labelled none g s =
      (s.pod ≡ "")
      × (s.namespace ≡ "")
      × (s.container ≡ "")
      × (s.gfx_activity ≡ (sample_idle fl g).gfx_activity)
  Labelled (some a) g s =
      (s.pod ≡ a.pod_name) × (s.namespace ≡ a.pod_namespace) × (s.container ≡ a.container)

  -- The snapshots are those of the GPUs, one for each and in their order.
  abbrev pub Shows : WorldState fl → String → List Gpu → List (Snapshot fl) → Type 0
  Shows state hostname [] [] = Unit
  Shows state hostname [] (s ∷ ss) = ⊥
  Shows state hostname (g ∷ gs) [] = ⊥
  Shows state hostname (g ∷ gs) (s ∷ ss) =
      (s.gpu_id ≡ g.id)
      × (s.hostname ≡ hostname)
      × (s.partition_id ≡ g.partition_id)
      × Labelled (find_assignment state.topology hostname g.id) g s
      × Shows state hostname gs ss

  module _ {R : Type 0} (draw : Call R fl.F) where
    labelled :
        (state : WorldState fl) (hostname : String) (g : Gpu) (o : Option Assignment) (rng : R)
        → let s = (snapshot_of fl draw state hostname g o rng).0 in
          (s.gpu_id ≡ g.id)
          × (s.hostname ≡ hostname)
          × (s.partition_id ≡ g.partition_id)
          × Labelled o g s
    unfolding snapshot_from_idle snapshot_from_loaded
    labelled state hostname g none rng = (refl, refl, refl, (refl, refl, refl, refl))
    labelled state hostname g (some a) rng = (refl, refl, refl, (refl, refl, refl))

    -- A scrape shows every GPU of the node once and in order, with the pod, the namespace and the
    -- container of its assignment in the topology, or with none of these and the idle activity where
    -- the topology has no assignment for it.
    pub sampler-Shows :
        (state : WorldState fl) (gpus : List Gpu) (hostname : String) (rng : R)
        → Shows state hostname gpus (topology_sampler fl draw state gpus hostname rng)
    unfolding topology_sampler
    sampler-Shows state [] hostname rng = tt
    sampler-Shows state (g ∷ gs) hostname rng =
        let o = find_assignment state.topology hostname g.id in
        let (a, b, c, d) = labelled state hostname g o rng in
        (a, b, c, d, sampler-Shows state gs hostname (snapshot_of fl draw state hostname g o rng).1)
