-- ===== src/Rocm/DevicePlugin/Annotate.antt =====
-- operators/fake-rocm-gpu-operator/pkg/deviceplugin/annotate.go: the annotator, which writes the
-- devices of a pod into an annotation of it. The pod API and the kubelet's PodResources API are
-- parameters on the world `W`.
use sims.Prelude.{String, List, [], ◌∷◌, if◌then◌else◌, ◌==◌}
use sims.Prelude.Maps.{Map, get_or}
use sims.Prelude.Results.{Result, ok, err, Call}
use sims.K8s.{ApiError}
use sims.Text.Split.{join}
use sims.Text.Order.{add_key, sort_strings}

abbrev pub assigned_gpus_annotation : String
assigned_gpus_annotation = "sims.io/assigned-gpus"

pub record ContainerDevices : Type 0 where
  pub resource_name : String
  pub device_ids : List String

-- Each container has a list of devices.
pub record PodResources : Type 0 where
  pub namespace : String
  pub name : String
  pub containers : List (List ContainerDevices)

-- `for _, id := range d.GetDeviceIds()`
unfoldable pub add_ids : List String → List String → List String
add_ids [] seen = seen
add_ids (id ∷ rest) seen = add_ids rest (add_key id seen)

-- `for _, d := range c.GetDevices()`
unfoldable pub add_devices : String → List ContainerDevices → List String → List String
unfolding add_ids
add_devices resource [] seen = seen
add_devices resource (d ∷ ds) seen =
    add_devices resource ds
      (if d.resource_name == resource then add_ids d.device_ids seen else seen)

-- `for _, c := range pod.GetContainers()`
unfoldable pub add_containers : String → List (List ContainerDevices) → List String → List String
unfolding add_devices
add_containers resource [] seen = seen
add_containers resource (c ∷ cs) seen = add_containers resource cs (add_devices resource c seen)

-- The keys of the map, which Go gives in any order, are sorted; no keys give no list.
unfoldable pub collect_devices_for_resource : PodResources → String → List String
unfolding add_containers
collect_devices_for_resource pod resource = sort_strings (add_containers resource pod.containers [])

pub data AnnotateError : Type 0 where
  get_failed : ApiError → AnnotateError
  patch_failed : ApiError → AnnotateError

-- `get` returns the annotations of a pod; `patch` merges the given annotations into them.
pub record PodApi (W : Type 0) : Type 0 where
  pub get : String → String → Call W (Result ApiError (Map String))
  pub patch : String → String → Map String → Call W (Result ApiError (Unit {0}))
  pub list_resources : Call W (Result String (List PodResources))

module _ {W : Type 0} (api : PodApi W) where
  abbrev pub after_patch : Result ApiError (Unit {0}) × W → Result AnnotateError (Unit {0}) × W
  after_patch (ok _, w) = (ok tt, w)
  after_patch (err e, w) = (err (patch_failed e), w)

  abbrev pub after_get :
      String
      → String
      → String
      → Result ApiError (Map String) × W
      → Result AnnotateError (Unit {0}) × W
  after_get ns name value (err e, w) = (err (get_failed e), w)
  after_get ns name value (ok annotations, w) =
      if get_or "" annotations assigned_gpus_annotation == value
      then (ok tt, w)
      else after_patch (api.patch ns name ((assigned_gpus_annotation, value) ∷ []) w)

  unfoldable pub annotate_pod : String → String → String → Call W (Result AnnotateError (Unit {0}))
  annotate_pod ns name value w = after_get ns name value (api.get ns name w)

  abbrev pub annotate_devices : PodResources → List String → W → W
  annotate_devices pod [] w = w
  annotate_devices pod (d ∷ ds) w = (annotate_pod pod.namespace pod.name (join "," (d ∷ ds)) w).1

  -- A pod that fails is logged and left; the others are annotated.
  unfoldable pub reconcile_pods : String → List PodResources → W → W
  unfolding annotate_pod
  reconcile_pods resource [] w = w
  reconcile_pods resource (pod ∷ pods) w =
      reconcile_pods resource pods
        (annotate_devices pod (collect_devices_for_resource pod resource) w)

  abbrev pub after_list : String → Result String (List PodResources) × W → W
  after_list resource (err e, w) = w
  after_list resource (ok pods, w) = reconcile_pods resource pods w

  unfoldable pub reconcile : String → W → W
  unfolding reconcile_pods
  reconcile resource w = after_list resource (api.list_resources w)
