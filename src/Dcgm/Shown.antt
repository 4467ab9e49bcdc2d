-- ===== src/Dcgm/Shown.antt =====
-- operators/fake-dcgm-extras/internal/exporter: which pod a slot shows.
use sims.Prelude.{
  ℕ, zero, suc, ◌+◌, String, Bool, true, false, ◌||◌, List, [], ◌∷◌, Option, none, some, map, ◌≡◌,
  refl, ap, ◌∙◌, arith, In, All, inl, inr, Bool-cases, get_elem?, if◌then◌else◌, some_inj,
}
use sims.Prelude.Float.{Float64}
use sims.Prelude.Results.{Result, ok, Call}
use sims.K8s.{Quantities, Container, Pod}
use sims.Text.{append, is_empty}
use sims.Text.Decimal.{itoa}
use sims.Dcgm.Registry.{Snapshot}
use sims.Dcgm.Cache.{
  Cache, NodeAssignment, new_cache, has_gpu_request, first_gpu_container, assignment_of,
  assignments_of, refresh,
}
use sims.Dcgm.Sample.{
  GpuIdentity, bare, slot, slots_from, sampler, fill_idle, fill_loaded, loaded, idle_only,
}

module _ (qs : Quantities) where
  abbrev pub Containers : Type 0
  Containers = List (Container qs.Q)

  -- Some container of the pod asks for a GPU.
  abbrev pub any_asks : Containers → Bool
  any_asks [] = false
  any_asks (c ∷ cs) = has_gpu_request qs c || any_asks cs

  -- The pods that ask for a GPU, in the order of the list.
  abbrev pub gpu_pods : List (Pod qs.Q) → List (Pod qs.Q)
  gpu_pods [] = []
  gpu_pods (p ∷ ps) = if any_asks p.containers then p ∷ gpu_pods ps else gpu_pods ps

  -- Every container has a name, as the API server demands.
  abbrev pub HasNames : Containers → Type 0
  HasNames cs = All (λ (c : Container qs.Q). is_empty c.name ≡ false) cs

  -- The first container that asks is found by its name, and no other is.
  first_found :
      (cs : Containers)
      → HasNames cs
      → any_asks cs ≡ true
      → (c : Container qs.Q) × In c cs
        × (has_gpu_request qs c ≡ true)
        × (first_gpu_container qs cs ≡ c.name)
        × (is_empty (first_gpu_container qs cs) ≡ false)
  unfolding first_gpu_container
  first_found [] names h = cc
  first_found (c ∷ cs) names h = elim (Bool-cases (has_gpu_request qs c)) [
    | inl asks ↦ (c, inl refl, asks, rw asks refl, rw asks names.0)
    | inr not_here ↦
        let (d, i, a, n, e) = first_found cs names.1 (rw not_here at h) in
        (d, inr i, a, rw not_here n, rw not_here e)
  ]

  first_missing : (cs : Containers) → any_asks cs ≡ false → first_gpu_container qs cs ≡ ""
  unfolding first_gpu_container
  first_missing [] h = refl
  first_missing (c ∷ cs) h = elim (Bool-cases (has_gpu_request qs c)) [
    | inl asks ↦ absurd (true_is_not (rw asks at h))
    | inr not_here ↦ rw not_here (first_missing cs (rw not_here at h))
  ]
    where
      true_is_not : true ≡ false → ⊥
      true_is_not e = cc

  abbrev assigned : Pod qs.Q → NodeAssignment
  assigned p = assignment_of qs p (first_gpu_container qs p.containers)

  assignments_exact :
      (ps : List (Pod qs.Q))
      → All (λ (p : Pod qs.Q). HasNames p.containers) ps
      → assignments_of qs ps ≡ map assigned (gpu_pods ps)
  unfolding assignments_of
  assignments_exact [] names = refl
  assignments_exact (p ∷ ps) names =
      let rest = assignments_exact ps names.1 in
      elim (Bool-cases (any_asks p.containers)) [
        | inl asks ↦
            let (c, i, a, n, e) = first_found p.containers names.0 asks in
            rw (asks, e) (ap (λ (r : List NodeAssignment). assigned p ∷ r) rest)
        | inr not_here ↦ rw (not_here, first_missing p.containers not_here) rest
      ]

module _ (fl : Float64) where
  -- What a snapshot says of the assignment of its slot.
  abbrev pub Labelled : Option NodeAssignment → Snapshot fl → Type 0
  Labelled none s =
      (s.pod ≡ "") × (s.namespace ≡ "") × (s.container ≡ "") × (s.power_usage ≡ fl.lit 50 0)
  Labelled (some a) s =
      (s.pod ≡ a.pod_name) × (s.namespace ≡ a.namespace) × (s.container ≡ a.container)

  module _ {R : Type 0} (draw : Call R fl.F) where
    slot_labelled :
        (g : GpuIdentity) (hostname : String) (o : Option NodeAssignment) (rng : R)
        → let s = (slot fl draw g hostname o rng).0 in
          (s.gpu ≡ itoa g.index) × (s.uuid ≡ g.uuid) × (s.hostname ≡ hostname) × Labelled o s
    unfolding fill_idle fill_loaded loaded
    slot_labelled g hostname none rng = (refl, refl, refl, (refl, refl, refl, refl))
    slot_labelled g hostname (some a) rng = (refl, refl, refl, (refl, refl, refl))

    slot_shown :
        (assignments : List NodeAssignment) (hostname : String) (j i k : ℕ) (gs : List GpuIdentity)
        (g : GpuIdentity) (rng : R)
        → j + i ≡ k
        → get_elem? gs i ≡ some g
        → (s : Snapshot fl) × (get_elem? (slots_from fl draw assignments hostname j gs rng) i
            ≡ some s)
          × (s.gpu ≡ itoa g.index)
          × (s.uuid ≡ g.uuid)
          × (s.hostname ≡ hostname)
          × Labelled (get_elem? assignments k) s
    unfolding slots_from
    slot_shown assignments hostname j i k [] g rng e h = cc
    slot_shown assignments hostname j zero k (g0 ∷ gs) g rng e h =
        let same : g0 ≡ g = some_inj h in
        let here : j ≡ k = omega arith in
        let (a, b, c, l) = slot_labelled g0 hostname (get_elem? assignments j) rng in
        (
          (slot fl draw g0 hostname (get_elem? assignments j) rng).0,
          refl,
          rw (← same) a,
          rw (← same) b,
          c,
          rw (← here) l,
        )
    slot_shown assignments hostname j (suc i) k (g0 ∷ gs) g rng e h =
        slot_shown assignments hostname (suc j) i k gs g
          (slot fl draw g0 hostname (get_elem? assignments j) rng).1 (omega arith) h

    -- Without an assignment the scrape is that of a sidecar outside a cluster: every slot is idle.
    slots_idle :
        (hostname : String) (j : ℕ) (gs : List GpuIdentity) (rng : R)
        → slots_from fl draw [] hostname j gs rng ≡ idle_only fl gs hostname
    unfolding slots_from idle_only
    slots_idle hostname j [] rng = refl
    slots_idle hostname j (g ∷ gs) rng =
        ap (λ (r : List (Snapshot fl)). fill_idle fl (bare fl g hostname) ∷ r)
          (slots_idle hostname (suc j) gs rng)

    -- A sidecar whose cache is new shows what one outside a cluster shows: every slot idle.
    pub sampler-new_cache :
        (host hostname : String) (gs : List GpuIdentity) (rng : R)
        → sampler fl draw (new_cache host).assignments gs hostname rng ≡ idle_only fl gs hostname
    unfolding sampler new_cache
    sampler-new_cache host hostname gs rng = slots_idle hostname 0 gs rng

    module _ (qs : Quantities) where
      -- What a snapshot says of the pod that holds its slot.
      abbrev pub Holds : Option (Pod qs.Q) → Snapshot fl → Type 0
      Holds none s =
          (s.pod ≡ "") × (s.namespace ≡ "") × (s.container ≡ "") × (s.power_usage ≡ fl.lit 50 0)
      Holds (some p) s =
          (s.pod ≡ p.name)
          × (s.namespace ≡ p.namespace)
          × ((c : Container qs.Q) × In c p.containers
              × (has_gpu_request qs c ≡ true)
              × (s.container ≡ c.name))

      held_head :
          (p : Pod qs.Q) (ps : List (Pod qs.Q)) (i : ℕ) (s : Snapshot fl)
          → HasNames qs p.containers
          → any_asks qs p.containers ≡ true
          → ((k : ℕ)
              → Labelled (get_elem? (map (assigned qs) (gpu_pods qs ps)) k) s
              → Holds (get_elem? (gpu_pods qs ps) k) s)
          → Labelled (get_elem? (map (assigned qs) (p ∷ gpu_pods qs ps)) i) s
          → Holds (get_elem? (p ∷ gpu_pods qs ps) i) s
      held_head p ps zero s names asks later l =
          let (c, k, a, n, e) = first_found qs p.containers names asks in
          (l.0, l.1, (c, k, a, l.2 ∙ n))
      held_head p ps (suc i) s names asks later l = later i l

      held :
          (ps : List (Pod qs.Q)) (i : ℕ) (s : Snapshot fl)
          → All (λ (p : Pod qs.Q). HasNames qs p.containers) ps
          → Labelled (get_elem? (map (assigned qs) (gpu_pods qs ps)) i) s
          → Holds (get_elem? (gpu_pods qs ps) i) s
      held [] i s names h = h
      held (p ∷ ps) i s names h = elim (Bool-cases (any_asks qs p.containers)) [
        | inl asks ↦
            rw asks (held_head p ps i s names.0 asks (λ k l. held ps k s names.1 l) (rw asks at h))
        | inr not_here ↦ rw not_here (held ps i s names.1 (rw not_here at h))
      ]

      -- After a refresh that has listed the pods of the node, slot i shows the i-th of the pods that
      -- ask for a GPU, with a container of it that asks, and is idle where there are not so many; each
      -- container has a name.
      pub slot_shows_pod :
          {W : Type 0} (list_pods : String → Call W (Result String (List (Pod qs.Q)))) (c : Cache)
          (w : W) (pods : List (Pod qs.Q)) (gs : List GpuIdentity) (i : ℕ) (g : GpuIdentity)
          (hostname : String) (rng : R)
          → (list_pods (append "spec.nodeName=" c.hostname) w).0 ≡ ok pods
          → All (λ (p : Pod qs.Q). HasNames qs p.containers) pods
          → get_elem? gs i ≡ some g
          → let found = (refresh qs list_pods c w).0.assignments in
            (s : Snapshot fl) × (get_elem? (sampler fl draw found gs hostname rng) i ≡ some s)
            × (s.gpu ≡ itoa g.index)
            × (s.uuid ≡ g.uuid)
            × (s.hostname ≡ hostname)
            × Holds (get_elem? (gpu_pods qs pods) i) s
      unfolding refresh sampler
      slot_shows_pod list_pods c w pods gs i g hostname rng listed names h =
          rw (listed, assignments_exact qs pods names)
            (let (s, at, a, b, d, l) =
                slot_shown (map (assigned qs) (gpu_pods qs pods)) hostname 0 i i gs g rng
                  (omega arith) h in
              (s, at, a, b, d, held pods i s names l))
