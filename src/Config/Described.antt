-- ===== src/Config/Described.antt =====
-- pkg/config/kind_config.go: the kind cluster that options ask for, and how it is written in YAML.
use sims.Prelude.{ℕ, zero, suc, String, Bool, List, [], ◌∷◌, ◌++◌, if◌then◌else◌}
use sims.Prelude.Int.{ℤ, pos, leb_ℤ, to_ℕ}
use sims.Prelude.Maps.{Map}
use sims.Text.{append, concat, is_empty}
use sims.Config.KindConfig.{Options}

-- A kind cluster as its configuration describes it.
pub record Taint : Type 0 where
  pub key : String
  pub value : String
  pub effect : String

pub record Node : Type 0 where
  pub role : String
  pub image : String
  pub labels : Map String
  pub taints : List Taint

pub record Cluster : Type 0 where
  pub name : String
  pub nodes : List Node
  pub feature_gates : Map String
  pub runtime_config : Map String

-- How a cluster is written in YAML: an entry that is empty is left out.
abbrev pub entries : String → Map String → List String
entries quote [] = []
entries quote ((k, v) ∷ m) = concat ("  " ∷ k ∷ ": " ∷ quote ∷ v ∷ quote ∷ []) ∷ entries quote m

abbrev pub indented : List String → List String
indented [] = []
indented (line ∷ rest) = append "    " line ∷ indented rest

abbrev pub block : String → List String → List String
block title [] = []
block title (line ∷ rest) = append title ":" ∷ line ∷ rest

abbrev pub taint_entries : List Taint → List String
taint_entries [] = []
taint_entries (t ∷ ts) =
    concat ("  - key: \"" ∷ t.key ∷ "\"" ∷ [])
    ∷ concat ("    value: \"" ∷ t.value ∷ "\"" ∷ [])
    ∷ append "    effect: " t.effect
    ∷ taint_entries ts

abbrev pub node_text : Node → List String
node_text n =
    append "  - role: " n.role
    ∷ append "    image: " n.image
    ∷ indented (block "labels" (entries "\"" n.labels) ++ block "taints" (taint_entries n.taints))

abbrev pub nodes_text : List Node → List String
nodes_text [] = []
nodes_text (n ∷ ns) = node_text n ++ nodes_text ns

abbrev pub cluster_text : Cluster → List String
cluster_text c =
    "kind: Cluster"
    ∷ "apiVersion: kind.x-k8s.io/v1alpha4"
    ∷ append "name: " c.name
    ∷ "nodes:"
    ∷ (nodes_text c.nodes
        ++ (block "featureGates" (entries "" c.feature_gates)
            ++ block "runtimeConfig" (entries "\"" c.runtime_config)))

-- The cluster that the options ask for.
abbrev pub wanted_workers : ℤ → ℕ
wanted_workers w = if leb_ℤ w (pos 0) then 2 else to_ℕ w

abbrev pub wanted_image : Options → String
wanted_image o =
    append "kindest/node:" (if is_empty o.k8s_version then "v1.31.0" else o.k8s_version)

abbrev pub wanted_labels : Bool → Map String
wanted_labels nvidia =
    if nvidia
    then ("sims.io/gpu-vendor", "nvidia")
      ∷ ("nvidia.com/gpu.present", "true")
      ∷ ("nvidia.com/gpu.deploy.dcgm-exporter", "true")
      ∷ ("nvidia.com/gpu.deploy.device-plugin", "true")
      ∷ ("run.ai/simulated-gpu-node-pool", "default")
      ∷ []
    else ("sims.io/gpu-vendor", "amd") ∷ ("feature.node.kubernetes.io/amd-gpu", "true") ∷ []

abbrev pub control_plane : Options → Node
control_plane o = record {
  role = "control-plane";
  image = wanted_image o;
  labels = [];
  taints = [];
}

abbrev pub worker : Bool → Options → Node
worker nvidia o = record {
  role = "worker";
  image = wanted_image o;
  labels = wanted_labels nvidia;
  taints =
      if o.taint
      then record {
        key = if nvidia then "nvidia.com/gpu" else "amd.com/gpu";
        value = "present";
        effect = "NoSchedule";
      }
        ∷ []
      else [];
}

abbrev pub copies : ℕ → Node → List Node
copies zero n = []
copies (suc k) n = n ∷ copies k n

abbrev pub wanted_cluster : Bool → Options → Cluster
wanted_cluster nvidia o = record {
  name = if is_empty o.name then (if nvidia then "sims-nvidia" else "sims-amd") else o.name;
  nodes = control_plane o ∷ copies (wanted_workers o.workers) (worker nvidia o);
  feature_gates = if nvidia then ("DynamicResourceAllocation", "true") ∷ [] else [];
  runtime_config = if nvidia then ("resource.k8s.io/v1alpha3", "true") ∷ [] else [];
}
