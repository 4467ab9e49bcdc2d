-- ===== src/Kube/Snapshot/Agreed.antt =====
-- pkg/kube/snapshot.go and vendor.go: the two ways in which the vendor of a cluster is found, and the
-- pods of a snapshot.
use sims.Prelude.{
  String, false, List, [], ◌∷◌, none, some, if◌then◌else◌, ◌≡◌, refl, In, inl, inr, Bool-cases,
  Option-cases, ◌↔◌,
}
use sims.Prelude.Int.{ℤ, pos, is_zero, wrap64}
use sims.Prelude.Maps.{lookup, get_or}
use sims.K8s.{Quantities, Pod, Node}
use sims.Text.{is_empty}
use sims.Kube.Snapshot.Requested.{asked_in_all, requested}
use sims.Kube.Snapshot.{
  gpu_vendor_label, PodSnapshot, vendor_of, first_vendor, pod_gpu_request, pod_snapshot, rows,
  comes_first, insert_pod, sort_pods,
}

module _ (qs : Quantities) where
  open qs use {Q}

  -- The nodes that the label selector gives: those that carry the label.
  abbrev pub selected : List (Node Q) → List (Node Q)
  selected [] = []
  selected (n ∷ ns) = elim (lookup n.labels gpu_vendor_label) [
    | none ↦ selected ns
    | some v ↦ n ∷ selected ns
  ]

  vendor_kept :
      (seen : String) (ns : List (Node Q)) → is_empty seen ≡ false → vendor_of qs seen ns ≡ seen
  unfolding vendor_of
  vendor_kept seen [] h = refl
  vendor_kept seen (n ∷ ns) h = rw h (vendor_kept seen ns h)

  -- The vendor of a snapshot, which looks at every node, is the one that is detected among the nodes
  -- with the label; the snapshot's is empty where none is detected.
  pub vendors_agree :
      (nodes : List (Node Q))
      → first_vendor qs (selected nodes)
        ≡ (if is_empty (vendor_of qs "" nodes) then none else some (vendor_of qs "" nodes))
  unfolding first_vendor vendor_of
  vendors_agree [] = refl
  vendors_agree (n ∷ ns) = elim (Option-cases (lookup n.labels gpu_vendor_label)) [
    | inl missing ↦ rw (selected, get_or, missing) (vendors_agree ns)
    | inr (v, there) ↦ elim (Bool-cases (is_empty v)) [
      | inl blank ↦ rw (selected, get_or, there) (rw (get_or, there, blank) (vendors_agree ns))
      | inr named ↦
          rw (selected, get_or, there)
            (rw (get_or, there, named) (rw (vendor_kept v ns named, named) refl))
    ]
  ]

  insert_pod-In :
      (x p : PodSnapshot) (ps : List PodSnapshot) → In x (insert_pod qs p ps) → In x (p ∷ ps)
  unfolding insert_pod
  insert_pod-In x p [] h = h
  insert_pod-In x p (q ∷ ps) h = elim (Bool-cases (comes_first qs p q)) [
    | inl first ↦ rw first at h
    | inr after ↦ later (rw after at h) (insert_pod-In x p ps)
  ]
    where
      later :
          In x (q ∷ insert_pod qs p ps)
          → (In x (insert_pod qs p ps) → In x (p ∷ ps))
          → In x (p ∷ q ∷ ps)
      later (inl e) k = inr (inl e)
      later (inr m) k = elim (k m) [ inl e ↦ inl e | inr i ↦ inr (inr i) ]

  In-insert_pod :
      (x p : PodSnapshot) (ps : List PodSnapshot) → In x (p ∷ ps) → In x (insert_pod qs p ps)
  unfolding insert_pod
  In-insert_pod x p [] h = h
  In-insert_pod x p (q ∷ ps) h = elim (Bool-cases (comes_first qs p q)) [
    | inl first ↦ rw first h
    | inr after ↦ rw after (later h (In-insert_pod x p ps))
  ]
    where
      later :
          In x (p ∷ q ∷ ps)
          → (In x (p ∷ ps) → In x (insert_pod qs p ps))
          → In x (q ∷ insert_pod qs p ps)
      later (inl e) k = inr (k (inl e))
      later (inr (inl e)) k = inl e
      later (inr (inr m)) k = inr (k (inr m))

  sort_pods-In : (x : PodSnapshot) (ps : List PodSnapshot) → In x (sort_pods qs ps) → In x ps
  unfolding sort_pods
  sort_pods-In x [] h = h
  sort_pods-In x (p ∷ ps) h = elim (insert_pod-In x p (sort_pods qs ps) h) [
    | inl e ↦ inl e
    | inr m ↦ inr (sort_pods-In x ps m)
  ]

  In-sort_pods : (x : PodSnapshot) (ps : List PodSnapshot) → In x ps → In x (sort_pods qs ps)
  unfolding sort_pods
  In-sort_pods x [] h = h
  In-sort_pods x (p ∷ ps) (inl e) = In-insert_pod x p (sort_pods qs ps) (inl e)
  In-sort_pods x (p ∷ ps) (inr m) = In-insert_pod x p (sort_pods qs ps) (inr (In-sort_pods x ps m))

  abbrev request : String → Pod Q → ℤ
  request resource p = pod_gpu_request qs resource (pos 0) p.containers

  -- An entry that stands for a pod of the list which asks for GPUs.
  abbrev pub Asked : String → List (Pod Q) → PodSnapshot → Type 0
  Asked resource pods x =
      (p : Pod Q) × In p pods
      × (is_zero (wrap64 (asked_in_all qs resource p.containers)) ≡ false)
      × (x ≡ record {
        namespace = p.namespace;
        name = p.name;
        node = p.node_name;
        gpus = wrap64 (asked_in_all qs resource p.containers);
        phase = p.phase;
      })

  rows-Asked :
      (resource : String) (pods : List (Pod Q)) (x : PodSnapshot)
      → In x (rows qs resource pods)
      → Asked resource pods x
  unfolding rows
  rows-Asked resource [] x h = elim h [ ]
  rows-Asked resource (p ∷ ps) x h = elim (Bool-cases (is_zero (request resource p))) [
    | inl none_asked ↦ later (rows-Asked resource ps x (rw none_asked at h))
    | inr some_asked ↦ now some_asked (rw some_asked at h) (rows-Asked resource ps x)
  ]
    where
      later : Asked resource ps x → Asked resource (p ∷ ps) x
      later (q, m, asks, e) = (q, inr m, asks, e)

      now :
          is_zero (request resource p) ≡ false
          → In x (pod_snapshot qs p (request resource p) ∷ rows qs resource ps)
          → (In x (rows qs resource ps) → Asked resource ps x)
          → Asked resource (p ∷ ps) x
      now asks (inl e) k = (
        p,
        inl refl,
        rw (requested qs resource p.containers) at asks,
        rw (requested qs resource p.containers) at e,
      )
      now asks (inr m) k = later (k m)

  Asked-rows :
      (resource : String) (pods : List (Pod Q)) (x : PodSnapshot)
      → Asked resource pods x
      → In x (rows qs resource pods)
  unfolding rows
  Asked-rows resource [] x (p, m, asks, e) = elim m [ ]
  Asked-rows resource (q ∷ ps) x (p, inl same, asks, e) =
      rw (← same, requested qs resource p.containers, asks) (inl e)
  Asked-rows resource (q ∷ ps) x (p, inr m, asks, e) =
      elim (Bool-cases (is_zero (request resource q))) [
        | inl none_asked ↦ rw none_asked (Asked-rows resource ps x (p, m, asks, e))
        | inr some_asked ↦ rw some_asked (inr (Asked-rows resource ps x (p, m, asks, e)))
      ]

  -- The GPU pods of a snapshot are the pods that ask for GPUs: a pod is there exactly when the sum of the
  -- limits of its containers (those without a limit on the resource, or with one that is no integer,
  -- count 0) is not 0 as an int64, and its entry has that sum, and its names, node and phase.
  pub gpu_pods_exact :
      (resource : String) (pods : List (Pod Q)) (x : PodSnapshot)
      → In x (sort_pods qs (rows qs resource pods)) ↔ Asked resource pods x
  gpu_pods_exact resource pods x = (
    λ h. rows-Asked resource pods x (sort_pods-In x (rows qs resource pods) h),
    λ h. In-sort_pods x (rows qs resource pods) (Asked-rows resource pods x h),
  )
