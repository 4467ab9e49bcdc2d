-- ===== src/Rocm/DevicePlugin/Annotated.antt =====
-- operators/fake-rocm-gpu-operator/pkg/deviceplugin/annotate.go: what the annotator does to the pods.
use sims.Prelude.{
  String, List, [], ◌∷◌, ◌==◌, ◌≡◌, ◌≢◌, refl, ◌∙◌, sym, ap, ◌⊎◌, inl, inr, Bool-cases, eq_iff,
}
use sims.Prelude.Maps.{Map, get_or}
use sims.Prelude.Results.{Result, ok, err}
use sims.K8s.{ApiError}
use sims.Text.Split.{join}
use sims.Rocm.DevicePlugin.Annotate.{
  PodApi, PodResources, annotate_pod, after_get, after_patch, annotate_devices, reconcile_pods,
  reconcile, collect_devices_for_resource, assigned_gpus_annotation,
}

-- What the API server documents of the calls. `value w ns name key` is the annotation of a pod in the
-- world `w`, the empty text where it has none. A call that fails has changed nothing.
pub record PodApiLaws {W : Type 0} (api : PodApi W) : Type 0 where
  pub value : W → String → String → String → String
  -- A read changes no annotation. The rest of the world is free: the next read may answer otherwise.
  pub get_keeps :
      (ns name : String) (w : W) (ns' name' key' : String)
      → value (api.get ns name w).1 ns' name' key' ≡ value w ns' name' key'
  pub get_reads :
      (ns name : String) (w : W) (m : Map String)
      → (api.get ns name w).0 ≡ ok m
      → (key : String) → get_or "" m key ≡ value w ns name key
  pub patch_writes :
      (ns name key v : String) (w : W)
      → (api.patch ns name ((key, v) ∷ []) w).0 ≡ ok tt
      → value (api.patch ns name ((key, v) ∷ []) w).1 ns name key ≡ v
  -- A merge patch leaves the other annotations and the other pods alone.
  pub patch_keeps :
      (ns name key v : String) (w : W) (ns' name' key' : String)
      → (ns' ≢ ns) ⊎ ((name' ≢ name) ⊎ (key' ≢ key))
      → value (api.patch ns name ((key, v) ∷ []) w).1 ns' name' key' ≡ value w ns' name' key'
  pub list_keeps :
      (w : W) (ns' name' key' : String)
      → value (api.list_resources w).1 ns' name' key' ≡ value w ns' name' key'

module _ {W : Type 0} (api : PodApi W) (laws : PodApiLaws api) where
  open laws use {value, get_keeps, get_reads, patch_writes, patch_keeps, list_keeps}

  patch_result : (p : Result ApiError (Unit {0}) × W) → (after_patch api p).0 ≡ ok tt → p.0 ≡ ok tt
  patch_result (ok tt, w) h = refl
  patch_result (err e, w) h = cc

  patch_world : (p : Result ApiError (Unit {0}) × W) → (after_patch api p).1 ≡ p.1
  patch_world (ok tt, w) = refl
  patch_world (err e, w) = refl

  writes_after_get :
      (ns name v : String) (w : W) (r : Result ApiError (Map String)) (w1 : W)
      → value w1 ns name assigned_gpus_annotation ≡ value w ns name assigned_gpus_annotation
      → ((m : Map String) → r ≡ ok m → (key : String) → get_or "" m key ≡ value w ns name key)
      → (after_get api ns name v (r, w1)).0 ≡ ok tt
      → value (after_get api ns name v (r, w1)).1 ns name assigned_gpus_annotation ≡ v
  writes_after_get ns name v w (err e) w1 same reads h = cc
  writes_after_get ns name v w (ok m) w1 same reads h =
      elim (Bool-cases (get_or "" m assigned_gpus_annotation == v)) [
        | inl has ↦
            rw has (same ∙ (sym (reads m refl assigned_gpus_annotation) ∙ (eq_iff _ v).0 has))
        | inr lacks ↦ rw lacks (
            ap (λ (x : W). value x ns name assigned_gpus_annotation) (patch_world p)
            ∙ patch_writes ns name assigned_gpus_annotation v w1 (patch_result p (rw lacks at h)))
      ]
    where
      p : Result ApiError (Unit {0}) × W
      p = api.patch ns name ((assigned_gpus_annotation, v) ∷ []) w1

  -- A pod that was annotated without an error carries the value in the annotator's annotation.
  pub annotate_pod_writes :
      (ns name v : String) (w : W)
      → (annotate_pod api ns name v w).0 ≡ ok tt
      → value (annotate_pod api ns name v w).1 ns name assigned_gpus_annotation ≡ v
  unfolding annotate_pod
  annotate_pod_writes ns name v w h =
      writes_after_get ns name v w (api.get ns name w).0 (api.get ns name w).1
        (get_keeps ns name w ns name assigned_gpus_annotation) (get_reads ns name w) h

  keeps_after_get :
      (ns name v : String) (w : W) (r : Result ApiError (Map String)) (w1 : W)
      (ns' name' key' : String)
      → value w1 ns' name' key' ≡ value w ns' name' key'
      → (ns' ≢ ns) ⊎ ((name' ≢ name) ⊎ (key' ≢ assigned_gpus_annotation))
      → value (after_get api ns name v (r, w1)).1 ns' name' key' ≡ value w ns' name' key'
  keeps_after_get ns name v w (err e) w1 ns' name' key' same d = same
  keeps_after_get ns name v w (ok m) w1 ns' name' key' same d =
      elim (Bool-cases (get_or "" m assigned_gpus_annotation == v)) [
        | inl has ↦ rw has same
        | inr lacks ↦ rw lacks (
            ap (λ (x : W). value x ns' name' key') (patch_world p)
            ∙ (patch_keeps ns name assigned_gpus_annotation v w1 ns' name' key' d ∙ same))
      ]
    where
      p : Result ApiError (Unit {0}) × W
      p = api.patch ns name ((assigned_gpus_annotation, v) ∷ []) w1

  -- Annotating a pod leaves every other annotation and every other pod alone, with an error or without.
  pub annotate_pod_keeps :
      (ns name v : String) (w : W) (ns' name' key' : String)
      → (ns' ≢ ns) ⊎ ((name' ≢ name) ⊎ (key' ≢ assigned_gpus_annotation))
      → value (annotate_pod api ns name v w).1 ns' name' key' ≡ value w ns' name' key'
  unfolding annotate_pod
  annotate_pod_keeps ns name v w ns' name' key' d =
      keeps_after_get ns name v w (api.get ns name w).0 (api.get ns name w).1 ns' name' key'
        (get_keeps ns name w ns' name' key') d

  -- No pod of the list has this name, or holds a device of the resource.
  abbrev pub Untouched : String → String → String → List PodResources → Type 0
  Untouched resource ns' name' [] = Unit
  Untouched resource ns' name' (pod ∷ pods) =
      ((ns' ≢ pod.namespace)
        ⊎ ((name' ≢ pod.name) ⊎ (collect_devices_for_resource pod resource ≡ [])))
      × Untouched resource ns' name' pods

  devices_keep :
      (pod : PodResources) (ds : List String) (w : W) (ns' name' key' : String)
      → (ns' ≢ pod.namespace)
        ⊎ ((name' ≢ pod.name) ⊎ ((ds ≡ []) ⊎ (key' ≢ assigned_gpus_annotation)))
      → value (annotate_devices api pod ds w) ns' name' key' ≡ value w ns' name' key'
  devices_keep pod [] w ns' name' key' d = refl
  devices_keep pod (x ∷ xs) w ns' name' key' d =
      annotate_pod_keeps pod.namespace pod.name (join "," (x ∷ xs)) w ns' name' key' (narrow d)
    where
      narrow :
          (ns' ≢ pod.namespace)
            ⊎ ((name' ≢ pod.name) ⊎ ((x ∷ xs ≡ []) ⊎ (key' ≢ assigned_gpus_annotation)))
          → (ns' ≢ pod.namespace) ⊎ ((name' ≢ pod.name) ⊎ (key' ≢ assigned_gpus_annotation))
      narrow (inl a) = inl a
      narrow (inr (inl b)) = inr (inl b)
      narrow (inr (inr (inl c))) = cc
      narrow (inr (inr (inr e))) = inr (inr e)

  pods_keep :
      (resource : String) (pods : List PodResources) (w : W) (ns' name' key' : String)
      → (key' ≢ assigned_gpus_annotation) ⊎ Untouched resource ns' name' pods
      → value (reconcile_pods api resource pods w) ns' name' key' ≡ value w ns' name' key'
  unfolding reconcile_pods
  pods_keep resource [] w ns' name' key' d = refl
  pods_keep resource (pod ∷ pods) w ns' name' key' (inl k) =
      pods_keep resource pods _ ns' name' key' (inl k)
      ∙ devices_keep pod (collect_devices_for_resource pod resource) w ns' name' key'
          (inr (inr (inr k)))
  pods_keep resource (pod ∷ pods) w ns' name' key' (inr (u, us)) =
      pods_keep resource pods _ ns' name' key' (inr us)
      ∙ devices_keep pod (collect_devices_for_resource pod resource) w ns' name' key' (widen u)
    where
      widen :
          (ns' ≢ pod.namespace)
            ⊎ ((name' ≢ pod.name) ⊎ (collect_devices_for_resource pod resource ≡ []))
          → (ns' ≢ pod.namespace)
            ⊎ ((name' ≢ pod.name)
                ⊎ ((collect_devices_for_resource pod resource ≡ [])
                    ⊎ (key' ≢ assigned_gpus_annotation)))
      widen (inl a) = inl a
      widen (inr (inl b)) = inr (inl b)
      widen (inr (inr c)) = inr (inr (inl c))

  -- One round of the annotator changes no annotation but its own, and none of a pod that the kubelet
  -- does not list with a device of the resource.
  pub reconcile_keeps :
      (resource : String) (pods : List PodResources) (w : W) (ns' name' key' : String)
      → (api.list_resources w).0 ≡ ok pods
      → (key' ≢ assigned_gpus_annotation) ⊎ Untouched resource ns' name' pods
      → value (reconcile api resource w) ns' name' key' ≡ value w ns' name' key'
  unfolding reconcile
  reconcile_keeps resource pods w ns' name' key' listed d = rw listed (
      pods_keep resource pods (api.list_resources w).1 ns' name' key' d
      ∙ list_keeps w ns' name' key')
