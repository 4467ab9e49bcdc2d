-- ===== src/Rocm/DevicePlugin/Collected.antt =====
-- operators/fake-rocm-gpu-operator/pkg/deviceplugin/annotate.go: what collectDevicesForResource returns.
use sims.Prelude.{
  String, List, [], ◌∷◌, if◌then◌else◌, ◌==◌, ◌≡◌, ◌⊎◌, ◌↔◌, inl, inr, In, Distinct, Bool-cases,
  eq_iff,
}
use sims.Text.Order.{
  add_key, IsSorted, sort_strings-IsSorted, sort_strings-Distinct, In-sort_strings, sort_strings-In,
  add_key-Distinct, In-add_key, add_key-In,
}
use sims.Rocm.DevicePlugin.Annotate.{
  ContainerDevices, PodResources, add_ids, add_devices, add_containers,
  collect_devices_for_resource,
}

-- The device `id` of the resource is allocated to one of the container's entries.
abbrev pub InDevices : String → String → List ContainerDevices → Type 0
InDevices resource id [] = ⊥
InDevices resource id (d ∷ ds) =
    ((d.resource_name ≡ resource) × In id d.device_ids) ⊎ InDevices resource id ds

-- The device is allocated to a container of the pod.
abbrev pub IsAllocated : String → String → List (List ContainerDevices) → Type 0
IsAllocated resource id [] = ⊥
IsAllocated resource id (c ∷ cs) = InDevices resource id c ⊎ IsAllocated resource id cs

add_ids-Distinct : (ids seen : List String) → Distinct seen → Distinct (add_ids ids seen)
unfolding add_ids
add_ids-Distinct [] seen d = d
add_ids-Distinct (i ∷ ids) seen d =
    add_ids-Distinct ids (add_key i seen) (add_key-Distinct i seen d)

add_ids-In : (z : String) (ids seen : List String) → In z (add_ids ids seen) → In z ids ⊎ In z seen
unfolding add_ids
add_ids-In z [] seen h = inr h
add_ids-In z (i ∷ ids) seen h = elim (add_ids-In z ids (add_key i seen) h) [
  | inl m ↦ inl (inr m)
  | inr m ↦ elim (add_key-In z i seen m) [ inl e ↦ inl (inl e) | inr s ↦ inr s ]
]

In-add_ids : (z : String) (ids seen : List String) → In z ids ⊎ In z seen → In z (add_ids ids seen)
unfolding add_ids
In-add_ids z [] seen (inl h) = elim h [ ]
In-add_ids z [] seen (inr h) = h
In-add_ids z (i ∷ ids) seen (inl (inl e)) =
    In-add_ids z ids (add_key i seen) (inr (In-add_key z i seen (inl e)))
In-add_ids z (i ∷ ids) seen (inl (inr m)) = In-add_ids z ids (add_key i seen) (inl m)
In-add_ids z (i ∷ ids) seen (inr m) =
    In-add_ids z ids (add_key i seen) (inr (In-add_key z i seen (inr m)))

module _ (resource : String) where
  add_devices-Distinct :
      (ds : List ContainerDevices) (seen : List String)
      → Distinct seen
      → Distinct (add_devices resource ds seen)
  unfolding add_devices
  add_devices-Distinct [] seen h = h
  add_devices-Distinct (d ∷ ds) seen h =
      add_devices-Distinct ds
        (if d.resource_name == resource then add_ids d.device_ids seen else seen)
        (elim (Bool-cases (d.resource_name == resource)) [
          | inl same ↦ rw same (add_ids-Distinct d.device_ids seen h)
          | inr different ↦ rw different h
        ])

  add_devices-In :
      (z : String) (ds : List ContainerDevices) (seen : List String)
      → In z (add_devices resource ds seen)
      → InDevices resource z ds ⊎ In z seen
  unfolding add_devices
  add_devices-In z [] seen h = inr h
  add_devices-In z (d ∷ ds) seen h = elim (Bool-cases (d.resource_name == resource)) [
    | inl same ↦ elim (add_devices-In z ds (add_ids d.device_ids seen) (rw same at h)) [
      | inl m ↦ inl (inr m)
      | inr m ↦ elim (add_ids-In z d.device_ids seen m) [
        | inl i ↦ inl (inl ((eq_iff d.resource_name resource).0 same, i))
        | inr s ↦ inr s
      ]
    ]
    | inr different ↦ elim (add_devices-In z ds seen (rw different at h)) [
      | inl m ↦ inl (inr m)
      | inr s ↦ inr s
    ]
  ]

  In-add_devices :
      (z : String) (ds : List ContainerDevices) (seen : List String)
      → InDevices resource z ds ⊎ In z seen
      → In z (add_devices resource ds seen)
  unfolding add_devices
  In-add_devices z [] seen (inl h) = elim h [ ]
  In-add_devices z [] seen (inr h) = h
  In-add_devices z (d ∷ ds) seen (inl (inl (e, i))) = rw ((eq_iff d.resource_name resource).1 e) (
      In-add_devices z ds (add_ids d.device_ids seen)
        (inr (In-add_ids z d.device_ids seen (inl i))))
  In-add_devices z (d ∷ ds) seen (inl (inr m)) = In-add_devices z ds _ (inl m)
  In-add_devices z (d ∷ ds) seen (inr m) =
      In-add_devices z ds (if d.resource_name == resource then add_ids d.device_ids seen else seen)
        (inr (elim (Bool-cases (d.resource_name == resource)) [
          | inl same ↦ rw same (In-add_ids z d.device_ids seen (inr m))
          | inr different ↦ rw different m
        ]))

  add_containers-Distinct :
      (cs : List (List ContainerDevices)) (seen : List String)
      → Distinct seen
      → Distinct (add_containers resource cs seen)
  unfolding add_containers
  add_containers-Distinct [] seen h = h
  add_containers-Distinct (c ∷ cs) seen h =
      add_containers-Distinct cs (add_devices resource c seen) (add_devices-Distinct c seen h)

  add_containers-In :
      (z : String) (cs : List (List ContainerDevices)) (seen : List String)
      → In z (add_containers resource cs seen)
      → IsAllocated resource z cs ⊎ In z seen
  unfolding add_containers
  add_containers-In z [] seen h = inr h
  add_containers-In z (c ∷ cs) seen h =
      elim (add_containers-In z cs (add_devices resource c seen) h) [
        | inl m ↦ inl (inr m)
        | inr m ↦ elim (add_devices-In z c seen m) [ inl i ↦ inl (inl i) | inr s ↦ inr s ]
      ]

  In-add_containers :
      (z : String) (cs : List (List ContainerDevices)) (seen : List String)
      → IsAllocated resource z cs ⊎ In z seen
      → In z (add_containers resource cs seen)
  unfolding add_containers
  In-add_containers z [] seen (inl h) = elim h [ ]
  In-add_containers z [] seen (inr h) = h
  In-add_containers z (c ∷ cs) seen (inl (inl m)) =
      In-add_containers z cs _ (inr (In-add_devices z c seen (inl m)))
  In-add_containers z (c ∷ cs) seen (inl (inr m)) = In-add_containers z cs _ (inl m)
  In-add_containers z (c ∷ cs) seen (inr m) =
      In-add_containers z cs _ (inr (In-add_devices z c seen (inr m)))

-- The list that is collected for a resource is sorted, names no device twice, and names exactly the
-- devices of that resource that are allocated to some container of the pod.
pub collected_exact :
    (pod : PodResources) (resource : String)
    → let devs = collect_devices_for_resource pod resource in
      IsSorted devs
      × Distinct devs
      × ((id : String) → In id devs ↔ IsAllocated resource id pod.containers)
unfolding collect_devices_for_resource
collected_exact pod resource =
    let keys = add_containers resource pod.containers [] in
    (
      sort_strings-IsSorted keys,
      sort_strings-Distinct keys (add_containers-Distinct resource pod.containers [] tt),
      λ id. (
        λ m.
            no_seen id pod.containers
              (add_containers-In resource id pod.containers [] (sort_strings-In id keys m)),
        λ a. In-sort_strings id keys (In-add_containers resource id pod.containers [] (inl a)),
      ),
    )
  where
    no_seen :
        (id : String) (cs : List (List ContainerDevices))
        → IsAllocated resource id cs ⊎ In id []
        → IsAllocated resource id cs
    no_seen id cs (inl a) = a
    no_seen id cs (inr h) = elim h [ ]
