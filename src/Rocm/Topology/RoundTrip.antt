-- ===== src/Rocm/Topology/RoundTrip.antt =====
-- operators/fake-rocm-gpu-operator/pkg/topology/configmap.go: what is saved is loaded again.
use sims.Prelude.{
  String, Bool, true, false, [], ◌∷◌, Option, none, some, if◌then◌else◌, ◌==◌, ◌≡◌, ◌≢◌, refl, ◌∙◌,
  sym, ap, ◌⊎◌, inl, inr, Bool-cases, Option-cases, eq_iff,
}
use sims.Prelude.Maps.{Map, lookup, insert, get_or, lookup-insert_self}
use sims.Prelude.Results.{Result, ok, err, wrap}
use sims.K8s.{ApiError, not_found}
use sims.Text.{is_empty, is_empty_iff}
use sims.Rocm.Topology.{
  ConfigMap, ConfigMaps, Topology, TopologyError, get_failed, unmarshal_failed, create_failed,
  update_failed, new_config_map, load, save, write, config_map_name, data_key,
}

-- Two topologies that are the same as maps: each node has the same assignments, or is in neither.
abbrev pub SameNodes : Topology → Topology → Type 0
SameNodes t t' = (node : String) → lookup t'.nodes node ≡ lookup t.nodes node

-- What is documented of the API and of the codec, which may sort the nodes. `stored w ns name` is the ConfigMap that the server
-- holds; a read may fail for another reason than that there is none.
pub record ConfigMapLaws {W : Type 0} (api : ConfigMaps W) : Type 0 where
  pub stored : W → String → String → Option ConfigMap
  pub get_world : (ns name : String) (w : W) → (api.get ns name w).1 ≡ w
  pub get_reads :
      (ns name : String) (w : W)
      → ((api.get ns name w).0 ≡ elim (stored w ns name) [ none ↦ err not_found | some cm ↦ ok cm ])
        ⊎ ((t : String) × ((api.get ns name w).0 ≡ err (ApiError.other t)))
  pub create_stores :
      (ns : String) (cm : ConfigMap) (w : W)
      → (api.create ns cm w).0 ≡ ok tt
      → stored (api.create ns cm w).1 ns cm.name ≡ some cm
  pub update_stores :
      (ns : String) (cm : ConfigMap) (w : W)
      → (api.update ns cm w).0 ≡ ok tt
      → stored (api.update ns cm w).1 ns cm.name ≡ some cm
  -- An object is read under its own name.
  pub stored_name :
      (w : W) (ns name : String) (cm : ConfigMap) → stored w ns name ≡ some cm → cm.name ≡ name
  pub unmarshal-marshal :
      (t : Topology) (body : String)
      → api.marshal t ≡ ok body
      → (body ≢ "") × ((t' : Topology) × (api.unmarshal body ≡ ok t') × SameNodes t t')

module _ {W : Type 0} (api : ConfigMaps W) (laws : ConfigMapLaws api) where
  open laws use {
    stored, get_world, get_reads, create_stores, update_stores, stored_name, unmarshal-marshal,
  }

  -- The ConfigMap of the world holds the body.
  abbrev Holds : String → String → W → Type 0
  Holds namespace body w =
      (cm : ConfigMap) × (stored w namespace config_map_name ≡ some cm)
      × (lookup cm.content data_key ≡ some body)

  wrapped :
      (f : ApiError → TopologyError) (r : Result ApiError (Unit {0})) → wrap f r ≡ ok tt → r ≡ ok tt
  wrapped f (ok tt) h = refl
  wrapped f (err e) h = cc

  read_back :
      (m : Map String) (k v : String) → (get_or "" m k == v) ≡ true → v ≢ "" → lookup m k ≡ some v
  read_back m k v same full = elim (Option-cases (lookup m k)) [
    | inl missing ↦ absurd (full (sym ((eq_iff "" v).0 (rw (missing, get_or) at same))))
    | inr (x, found) ↦ found ∙ ap some ((eq_iff x v).0 (rw (found, get_or) at same))
  ]

  abbrev changed : ConfigMap → String → ConfigMap
  changed cm body = record cm { content = insert cm.content data_key body }

  write-Holds :
      (namespace body : String) (r : Result ApiError ConfigMap) (w : W)
      → body ≢ ""
      → ((cm : ConfigMap) → r ≡ ok cm → stored w namespace config_map_name ≡ some cm)
      → (write api namespace body (r, w)).0 ≡ ok tt
      → Holds namespace body (write api namespace body (r, w)).1
  write-Holds namespace body (err not_found) w full reads h = (
    new_config_map api namespace body,
    create_stores namespace (new_config_map api namespace body) w (wrapped create_failed _ h),
    fresh,
  )
    where
      fresh : lookup ((data_key, body) ∷ []) data_key ≡ some body
      fresh = unfold lookup in refl
  write-Holds namespace body (err ApiError.already_exists) w full reads h = cc
  write-Holds namespace body (err (ApiError.other t)) w full reads h = cc
  write-Holds namespace body (ok cm) w full reads h =
      elim (Bool-cases (get_or "" cm.content data_key == body)) [
        | inl same ↦ rw same (cm, reads cm refl, read_back cm.content data_key body same full)
        | inr differs ↦ rw differs (
          changed cm body,
          ap (λ (n : String). stored (api.update namespace (changed cm body) w).1 namespace n)
                (sym (stored_name w namespace config_map_name cm (reads cm refl)))
              ∙ update_stores namespace (changed cm body) w
                  (wrapped update_failed _ (rw differs at h)),
          lookup-insert_self cm.content data_key body,
        )
      ]

  get_stored :
      (namespace : String) (w : W) (cm : ConfigMap)
      → (api.get namespace config_map_name w).0 ≡ ok cm
      → stored (api.get namespace config_map_name w).1 namespace config_map_name ≡ some cm
  get_stored namespace w cm got =
      rw (get_world namespace config_map_name w) (elim (get_reads namespace config_map_name w) [
        | inl direct ↦ from_store (stored w namespace config_map_name) (sym direct ∙ got)
        | inr (t, failed) ↦ cc
      ])
    where
      from_store :
          (o : Option ConfigMap)
          → (elim o [ none ↦ err not_found | some c ↦ ok c ]) ≡ ok cm
          → o ≡ some cm
      from_store none e = cc
      from_store (some c) e = cc

  save-Holds :
      (namespace : String) (t : Topology) (body : String) (w : W)
      → api.marshal t ≡ ok body
      → (save api namespace (some t) w).0 ≡ ok tt
      → Holds namespace body (save api namespace (some t) w).1
  unfolding save
  save-Holds namespace t body w m h = rw m (
      write-Holds namespace body (api.get namespace config_map_name w).0
        (api.get namespace config_map_name w).1 (unmarshal-marshal t body m).0
        (get_stored namespace w) (rw m at h))

  load-Holds :
      (namespace : String) (t : Topology) (body : String) (w : W)
      → api.marshal t ≡ ok body
      → Holds namespace body w
      → ((t' : Topology) × ((load api namespace w).0 ≡ ok t') × SameNodes t t')
        ⊎ ((s : String) × ((load api namespace w).0 ≡ err (get_failed (ApiError.other s))))
  unfolding load
  load-Holds namespace t body w m (cm, held, holds) = elim (get_reads namespace config_map_name w) [
    | inl direct ↦
        let (t', there, same) = decoded (is_empty body) refl in
        inl (t', rw (direct, held, holds) there, same)
    | inr (s, failed) ↦ inr (s, rw failed refl)
  ]
    where
      decoded :
          (e : Bool)
          → is_empty body ≡ e
          → (t' : Topology) × ((if e
                then ok (record { nodes = [] })
                else wrap unmarshal_failed (api.unmarshal body))
              ≡ ok t')
            × SameNodes t t'
      decoded true q = absurd ((unmarshal-marshal t body m).0 ((is_empty_iff body).0 q))
      decoded false q =
          let (full, (t', there, same)) = unmarshal-marshal t body m in
          (t', ap (wrap unmarshal_failed) there, same)

  -- A topology that has been saved without an error is what a load reads afterwards, with the same
  -- assignments on every node, unless the API fails the read for another reason than that there is no
  -- ConfigMap.
  pub load-save :
      (namespace : String) (t : Topology) (body : String) (w : W)
      → api.marshal t ≡ ok body
      → (save api namespace (some t) w).0 ≡ ok tt
      → let w' = (save api namespace (some t) w).1 in
        ((t' : Topology) × ((load api namespace w').0 ≡ ok t') × SameNodes t t')
        ⊎ ((s : String) × ((load api namespace w').0 ≡ err (get_failed (ApiError.other s))))
  load-save namespace t body w m h =
      load-Holds namespace t body _ m (save-Holds namespace t body w m h)
