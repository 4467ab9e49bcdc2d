-- ===== src/Rocm/Topology.antt =====
-- operators/fake-rocm-gpu-operator/pkg/topology/configmap.go: the ConfigMap that maps the GPUs of a node
-- to the pods that hold them. The ConfigMap API and the YAML codec are parameters.
pub mod RoundTrip
use sims.Prelude.{String, Bool, true, false, List, [], ◌∷◌, Option, none, some, if◌then◌else◌, ◌==◌}
use sims.Prelude.Maps.{Map, lookup, insert, get_or}
use sims.Prelude.Results.{Result, ok, err, Call, wrap}
use sims.K8s.{ApiError, not_found}
use sims.Text.{is_empty}

abbrev pub config_map_name : String
config_map_name = "topology"

abbrev pub data_key : String
data_key = "topology.yaml"

pub record Assignment : Type 0 where
  pub gpu_id : String
  pub pod_namespace : String
  pub pod_name : String
  pub container : String

-- A nil map and an empty one are read alike: the list without entries.
pub record Topology : Type 0 where
  pub nodes : Map (List Assignment)

abbrev pub empty : Topology
empty = record { nodes = [] }

pub record ConfigMap : Type 0 where
  pub name : String
  pub namespace : String
  pub labels : Map String
  pub content : Map String

-- The codec is sigs.k8s.io/yaml; `create` and `update` take the namespace of the object.
pub record ConfigMaps (W : Type 0) : Type 0 where
  pub get : String → String → Call W (Result ApiError ConfigMap)
  pub create : String → ConfigMap → Call W (Result ApiError (Unit {0}))
  pub update : String → ConfigMap → Call W (Result ApiError (Unit {0}))
  pub marshal : Topology → Result String String
  pub unmarshal : String → Result String Topology

pub data TopologyError : Type 0 where
  topology_is_nil : TopologyError
  marshal_failed : String → TopologyError
  unmarshal_failed : String → TopologyError
  get_failed : ApiError → TopologyError
  create_failed : ApiError → TopologyError
  update_failed : ApiError → TopologyError

module _ {W : Type 0} (api : ConfigMaps W) where
  -- A missing key and an empty body are an empty topology.
  abbrev pub decode : Option String → Result TopologyError Topology
  decode none = ok empty
  decode (some body) =
      if is_empty body then ok empty else wrap unmarshal_failed (api.unmarshal body)

  abbrev pub loaded : Result ApiError ConfigMap → Result TopologyError Topology
  loaded (err not_found) = ok empty
  loaded (err ApiError.already_exists) = err (get_failed ApiError.already_exists)
  loaded (err (ApiError.other t)) = err (get_failed (ApiError.other t))
  loaded (ok cm) = decode (lookup cm.content data_key)

  unfoldable pub load : String → Call W (Result TopologyError Topology)
  load namespace w = let (r, w') = api.get namespace config_map_name w in (loaded r, w')

  abbrev pub new_config_map : String → String → ConfigMap
  new_config_map namespace body = record {
    name = config_map_name;
    namespace = namespace;
    labels =
        ("app.kubernetes.io/part-of", "sims")
        ∷ ("app.kubernetes.io/managed-by", "fake-rocm-gpu-operator")
        ∷ [];
    content = (data_key, body) ∷ [];
  }

  abbrev pub failing :
      (ApiError → TopologyError)
      → Result ApiError (Unit {0}) × W
      → Result TopologyError (Unit {0}) × W
  failing f (r, w) = (wrap f r, w)

  abbrev pub write :
      String → String → Result ApiError ConfigMap × W → Result TopologyError (Unit {0}) × W
  write namespace body (err not_found, w) =
      failing create_failed (api.create namespace (new_config_map namespace body) w)
  write namespace body (err ApiError.already_exists, w) =
      (err (get_failed ApiError.already_exists), w)
  write namespace body (err (ApiError.other t), w) = (err (get_failed (ApiError.other t)), w)
  write namespace body (ok existing, w) =
      if get_or "" existing.content data_key == body
      then (ok tt, w)
      else failing update_failed (
          api.update namespace (record existing { content = insert existing.content data_key body })
            w)

  abbrev pub save_body : String → Result String String → Call W (Result TopologyError (Unit {0}))
  save_body namespace (err e) w = (err (marshal_failed e), w)
  save_body namespace (ok body) w = write namespace body (api.get namespace config_map_name w)

  -- `none` is a nil topology.
  unfoldable pub save : String → Option Topology → Call W (Result TopologyError (Unit {0}))
  save namespace none w = (err topology_is_nil, w)
  save namespace (some t) w = save_body namespace (api.marshal t) w

unfoldable pub find_gpu : List Assignment → String → Option Assignment
find_gpu [] gpu_id = none
find_gpu (a ∷ r) gpu_id = if a.gpu_id == gpu_id then some a else find_gpu r gpu_id

unfoldable pub find_assignment : Topology → String → String → Option Assignment
unfolding find_gpu
find_assignment t node gpu_id = find_gpu (get_or [] t.nodes node) gpu_id
