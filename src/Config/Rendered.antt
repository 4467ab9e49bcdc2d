-- ===== src/Config/Rendered.antt =====
-- pkg/config/kind_config.go: which options render, and the cluster that the rendered text describes.
use sims.Prelude.{
  ℕ, zero, suc, String, Bool, false, List, [], ◌∷◌, ◌++◌, true, if◌then◌else◌, ◌==◌, ◌||◌, ◌≡◌, inl,
  inr, Bool-cases, eq_iff, arith, ◌∙◌, ap, refl,
}
use sims.Prelude.Int.{ℤ, pos, leb_ℤ, to_ℕ}
use sims.Prelude.Results.{ok, err, ◌>>=◌}
use sims.Text.{append, is_empty}
use sims.Text.Split.{join}
use sims.Config.Described.{
  Node, entries, block, node_text, nodes_text, cluster_text, wanted_workers, wanted_image, worker,
  copies, wanted_cluster,
}
use sims.Config.KindConfig.{
  Options, RenderError, TemplateData, invalid_vendor, with_defaults, build_template_data,
  template_lines, repeat, template_of, worker_lines, dra_lines, render,
}

workers_default_idem :
    (w : ℤ)
    → (let d = if leb_ℤ w (pos 0) then pos 2 else w in if leb_ℤ d (pos 0) then pos 2 else d)
      ≡ (if leb_ℤ w (pos 0) then pos 2 else w)
workers_default_idem w = ground arith

text_default_idem :
    (s d : String)
    → is_empty d ≡ false
    → (let t = if is_empty s then d else s in if is_empty t then d else t)
      ≡ (if is_empty s then d else s)
text_default_idem s d h = ground arith

-- The defaults are taken once: the options that they complete are left alone by a second pass, which
-- is what happens to the cluster name that the command line has already filled in.
pub with_defaults_idem : (o : Options) → with_defaults (with_defaults o) ≡ with_defaults o
unfolding with_defaults
with_defaults_idem o = λ i. record {
  vendor = o.vendor;
  name = text_default_idem o.name (append "sims-" o.vendor) refl i;
  workers = workers_default_idem o.workers i;
  k8s_version = text_default_idem o.k8s_version "v1.31.0" refl i;
  taint = o.taint;
}

repeated :
    (k : ℕ) (lines : List String) (n : Node)
    → lines ≡ node_text n
    → repeat k lines ≡ nodes_text (copies k n)
repeated zero lines n same = refl
repeated (suc k) lines n same =
    ap (λ t. lines ++ t) (repeated k lines n same) ∙ ap (λ t. t ++ nodes_text (copies k n)) same

workers_counted : (w : ℤ) → to_ℕ (if leb_ℤ w (pos 0) then pos 2 else w) ≡ wanted_workers w
workers_counted w = elim (Bool-cases (leb_ℤ w (pos 0))) [
  | inl few ↦ rw few refl
  | inr some_given ↦ rw some_given refl
]

abbrev pub text_of : List String → String
text_of lines = append (join "\n" lines) "\n"

worker_block :
    (nvidia : Bool) (o : Options)
    → o.vendor ≡ (if nvidia then "nvidia" else "amd")
    → worker_lines (template_of (with_defaults o)) ≡ node_text (worker nvidia o)
unfolding with_defaults
worker_block true o e = elim (Bool-cases o.taint) [
  | inl tainted ↦ rw (e, tainted) refl
  | inr plain ↦ rw (e, plain) refl
]
worker_block false o e = elim (Bool-cases o.taint) [
  | inl tainted ↦ rw (e, tainted) refl
  | inr plain ↦ rw (e, plain) refl
]

-- The name, and the lines for DRA.
name_given :
    (nvidia : Bool) (o : Options)
    → o.vendor ≡ (if nvidia then "nvidia" else "amd")
    → (with_defaults o).name ≡ (wanted_cluster nvidia o).name
unfolding with_defaults
name_given true o e = rw e refl
name_given false o e = rw e refl

dra_block :
    (nvidia : Bool) (o : Options)
    → o.vendor ≡ (if nvidia then "nvidia" else "amd")
    → dra_lines (template_of (with_defaults o))
      ≡ block "featureGates" (entries "" (wanted_cluster nvidia o).feature_gates)
        ++ block "runtimeConfig" (entries "\"" (wanted_cluster nvidia o).runtime_config)
unfolding with_defaults
dra_block true o e = rw e refl
dra_block false o e = rw e refl

worker_blocks :
    (nvidia : Bool) (o : Options)
    → o.vendor ≡ (if nvidia then "nvidia" else "amd")
    → repeat (to_ℕ (with_defaults o).workers) (worker_lines (template_of (with_defaults o)))
      ≡ nodes_text (copies (wanted_workers o.workers) (worker nvidia o))
unfolding with_defaults
worker_blocks nvidia o e =
    ap (λ k. repeat k (worker_lines (template_of (with_defaults o)))) (workers_counted o.workers)
    ∙ repeated (wanted_workers o.workers) (worker_lines (template_of (with_defaults o)))
        (worker nvidia o) (worker_block nvidia o e)

head_of : String → String → List String
head_of name image =
    "kind: Cluster"
    ∷ "apiVersion: kind.x-k8s.io/v1alpha4"
    ∷ append "name: " name
    ∷ "nodes:"
    ∷ "  - role: control-plane"
    ∷ append "    image: " image
    ∷ []

described :
    (nvidia : Bool) (o : Options)
    → o.vendor ≡ (if nvidia then "nvidia" else "amd")
    → template_lines (template_of (with_defaults o)) ≡ cluster_text (wanted_cluster nvidia o)
unfolding template_lines with_defaults head_of
described nvidia o e = λ i.
    head_of (name_given nvidia o e i) (wanted_image o)
    ++ (worker_blocks nvidia o e i ++ dra_block nvidia o e i)

by_vendor :
    (nvidia amd : Bool) (d : TemplateData) (bad : RenderError) (x y : List String)
    → (nvidia ≡ true → template_lines d ≡ x)
    → (amd ≡ true → template_lines d ≡ y)
    → ((if nvidia || amd then ok d else err bad) >>= (λ t. ok (text_of (template_lines t))))
      ≡ (if nvidia then ok (text_of x) else if amd then ok (text_of y) else err bad)
by_vendor true amd d bad x y h k = ap (λ t. ok (text_of t)) (h refl)
by_vendor false true d bad x y h k = ap (λ t. ok (text_of t)) (k refl)
by_vendor false false d bad x y h k = refl

-- The text that the options render is the YAML of the cluster that they ask for: under the given name or
-- "sims-" and the vendor, one control plane and the workers (two where the number is not positive), all
-- with the image of the given version or v1.31.0; each worker with the vendor's labels and, where the
-- options ask for it, the taint that keeps other pods away; and for NVIDIA the feature gate and the
-- runtime configuration of DRA. Any other vendor is an error.
pub rendered_lines :
    (o : Options)
    → render o ≡ (
        if o.vendor == "nvidia"
        then ok (text_of (cluster_text (wanted_cluster true o)))
        else if o.vendor == "amd"
        then ok (text_of (cluster_text (wanted_cluster false o)))
        else err (invalid_vendor o.vendor))
unfolding render build_template_data
rendered_lines o =
    by_vendor (o.vendor == "nvidia") (o.vendor == "amd") (template_of (with_defaults o))
      (invalid_vendor o.vendor) (cluster_text (wanted_cluster true o))
      (cluster_text (wanted_cluster false o))
      (λ e. described true o ((eq_iff o.vendor "nvidia").0 e))
      (λ e. described false o ((eq_iff o.vendor "amd").0 e))
