-- ===== src/Config/KindConfig.antt =====
-- pkg/config/kind_config.go: the data of the kind template and the text that it renders. The template
-- is written out as the lines that it makes, each ended by a line feed.
use sims.Prelude.{ℕ, zero, suc, String, Bool, List, [], ◌∷◌, ◌++◌, if◌then◌else◌, ◌==◌, ◌||◌}
use sims.Prelude.Int.{ℤ, pos, leb_ℤ, to_ℕ}
use sims.Prelude.Maps.{Map}
use sims.Prelude.Results.{Result, ok, err, ◌>>=◌}
use sims.Text.{append, concat, is_empty}
use sims.Text.Split.{join}
use sims.Config.{vendor_nvidia, vendor_amd}

abbrev pub default_workers : ℤ
default_workers = pos 2

abbrev pub default_k8s_version : String
default_k8s_version = "v1.31.0"

pub record Options : Type 0 where
  pub vendor : String
  pub name : String
  pub workers : ℤ
  pub k8s_version : String
  pub taint : Bool

-- WorkerIndices is a slice of empty structs: its length.
pub record TemplateData : Type 0 where
  pub name : String
  pub node_image : String
  pub worker_indices : ℕ
  pub vendor : String
  pub present_label : String
  pub extra_labels : Map String
  pub taint : Bool
  pub enable_dra : Bool

pub data RenderError : Type 0 where
  invalid_vendor : String → RenderError

-- The options with their defaults.
unfoldable pub with_defaults : Options → Options
with_defaults o = record o {
  workers = if leb_ℤ o.workers (pos 0) then default_workers else o.workers;
  k8s_version = if is_empty o.k8s_version then default_k8s_version else o.k8s_version;
  name = if is_empty o.name then append "sims-" o.vendor else o.name;
}

abbrev present_label_of : String → String
present_label_of v =
    if v == vendor_nvidia
    then "nvidia.com/gpu.present"
    else if v == vendor_amd
    then "feature.node.kubernetes.io/amd-gpu"
    else ""

-- A nil map for AMD. A template ranges over a map by sorted keys, so the entries stand in that order.
abbrev pub extra_labels_of : String → Map String
extra_labels_of v =
    if v == vendor_nvidia
    then ("nvidia.com/gpu.deploy.dcgm-exporter", "true")
      ∷ ("nvidia.com/gpu.deploy.device-plugin", "true")
      ∷ ("run.ai/simulated-gpu-node-pool", "default")
      ∷ []
    else []

abbrev pub template_of : Options → TemplateData
template_of o = record {
  name = o.name;
  node_image = append "kindest/node:" o.k8s_version;
  worker_indices = to_ℕ o.workers;
  vendor = o.vendor;
  present_label = present_label_of o.vendor;
  extra_labels = extra_labels_of o.vendor;
  taint = o.taint;
  enable_dra = o.vendor == vendor_nvidia;
}

unfoldable pub build_template_data : Options → Result RenderError TemplateData
unfolding with_defaults
build_template_data o =
    if o.vendor == vendor_nvidia || o.vendor == vendor_amd
    then ok (template_of (with_defaults o))
    else err (invalid_vendor o.vendor)

abbrev label_line : String × String → String
label_line (k, v) = concat ("      " ∷ k ∷ ": \"" ∷ v ∷ "\"" ∷ [])

abbrev pub taint_lines : TemplateData → List String
taint_lines d =
    if d.taint
    then "    taints:"
      ∷ concat ("      - key: \"" ∷ d.vendor ∷ ".com/gpu\"" ∷ [])
      ∷ "        value: \"present\""
      ∷ "        effect: NoSchedule"
      ∷ []
    else []

abbrev pub label_lines : Map String → List String
label_lines [] = []
label_lines (e ∷ r) = label_line e ∷ label_lines r

-- The lines of one worker node.
abbrev pub worker_lines : TemplateData → List String
worker_lines d =
    "  - role: worker"
    ∷ append "    image: " d.node_image
    ∷ "    labels:"
    ∷ concat ("      sims.io/gpu-vendor: \"" ∷ d.vendor ∷ "\"" ∷ [])
    ∷ concat ("      " ∷ d.present_label ∷ ": \"true\"" ∷ [])
    ∷ (label_lines d.extra_labels ++ taint_lines d)

-- `{{ range .WorkerIndices }}`
abbrev pub repeat : ℕ → List String → List String
repeat zero block = []
repeat (suc n) block = block ++ repeat n block

abbrev pub head_lines : TemplateData → List String
head_lines d =
    "kind: Cluster"
    ∷ "apiVersion: kind.x-k8s.io/v1alpha4"
    ∷ append "name: " d.name
    ∷ "nodes:"
    ∷ "  - role: control-plane"
    ∷ append "    image: " d.node_image
    ∷ []

abbrev pub dra_lines : TemplateData → List String
dra_lines d =
    if d.enable_dra
    then "featureGates:" ∷ "  DynamicResourceAllocation: true" ∷ "runtimeConfig:"
      ∷ "  resource.k8s.io/v1alpha3: \"true\"" ∷ []
    else []

unfoldable pub template_lines : TemplateData → List String
template_lines d = head_lines d ++ (repeat d.worker_indices (worker_lines d) ++ dra_lines d)

unfoldable pub render : Options → Result RenderError String
unfolding build_template_data template_lines
render o = do d ← build_template_data o; ok (append (join "\n" (template_lines d)) "\n")
