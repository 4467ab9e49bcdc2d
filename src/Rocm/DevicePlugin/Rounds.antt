-- ===== src/Rocm/DevicePlugin/Rounds.antt =====
-- operators/fake-rocm-gpu-operator/pkg/deviceplugin/annotate.go: Run of the annotator, a loop of rounds.
use sims.Prelude.{ℕ, String, List, ◌≡◌, refl, ◌≢◌, ◌⊎◌, inl, inr, if◌then◌else◌}
use sims.Prelude.Int.{ℤ, pos, leb_ℤ}
use sims.Prelude.Results.{Result, ok, err, rounds, rounds_keep}
use sims.Text.{is_empty}
use sims.Rocm.DevicePlugin.Server.{default_resource_name}
use sims.Rocm.DevicePlugin.Annotate.{PodApi, PodResources, assigned_gpus_annotation, reconcile}
use sims.Rocm.DevicePlugin.Annotated.{PodApiLaws, Untouched, reconcile_keeps}

abbrev pub default_pod_resources_socket : String
default_pod_resources_socket = "/var/lib/kubelet/pod-resources/kubelet.sock"

-- The settings of a PodResourcesAnnotator; the interval is in nanoseconds.
pub record Annotator : Type 0 where
  pub resource_name : String
  pub socket_path : String
  pub reconcile_interval : ℤ

-- The settings that are missing take their defaults.
unfoldable pub with_defaults : Annotator → Annotator
with_defaults a = record {
  resource_name = if is_empty a.resource_name then default_resource_name else a.resource_name;
  socket_path = if is_empty a.socket_path then default_pod_resources_socket else a.socket_path;
  reconcile_interval =
      if leb_ℤ a.reconcile_interval (pos 0) then pos 5000000000 else a.reconcile_interval;
}

module _ {W : Type 0} (api : PodApi W) (dial : String → Result String (Unit {0})) where
  abbrev pub dialled : Annotator → ℕ → Result String (Unit {0}) → W → Result String (Unit {0}) × W
  dialled a ticks (err e) w = (err e, w)
  dialled a ticks (ok _) w = (ok tt, rounds (reconcile api a.resource_name) ticks w)

  -- `dial` is grpc.NewClient on the socket; the context is done after `ticks` ticks.
  unfoldable pub run_annotator : Annotator → ℕ → W → Result String (Unit {0}) × W
  unfolding with_defaults reconcile rounds
  run_annotator a ticks w = let a' = with_defaults a in dialled a' ticks (dial a'.socket_path) w

module _ {W : Type 0} (api : PodApi W) (laws : PodApiLaws api) where
  -- The key is not the annotator's, or no list of the kubelet has the pod with a device of the resource.
  abbrev pub IsAside : String → String → String → String → Type 0
  IsAside resource ns name key =
      (key ≢ assigned_gpus_annotation)
      ⊎ ((v : W) (pods : List PodResources)
          → (api.list_resources v).0 ≡ ok pods
          → Untouched api laws resource ns name pods)

  -- A round whose list fails changes nothing.
  round_keeps :
      (resource : String) (ns name key : String)
      → IsAside resource ns name key
      → (w : W) → laws.value (reconcile api resource w) ns name key ≡ laws.value w ns name key
  unfolding reconcile
  round_keeps resource ns name key aside w = by_list (api.list_resources w).0 refl
    where
      by_list :
          (r : Result String (List PodResources))
          → (api.list_resources w).0 ≡ r
          → laws.value (reconcile api resource w) ns name key ≡ laws.value w ns name key
      by_list (ok pods) e =
          reconcile_keeps api laws resource pods w ns name key e
            (elim aside [ inl other ↦ inl other | inr unlisted ↦ inr (unlisted w pods e) ])
      by_list (err x) e = rw e (laws.list_keeps w ns name key)

  -- However long the annotator runs, and whatever the kubelet and the API server answer in each round (a
  -- read may change the world, as long as it changes no annotation), the run changes no annotation of any
  -- pod but its own, and none at all of a pod that the kubelet never lists with a device of the resource,
  -- which is the configured one or else the default.
  pub run_annotator_keeps :
      (dial : String → Result String (Unit {0})) (a : Annotator) (ticks : ℕ) (w : W)
      (ns name key : String)
      → IsAside
          (if is_empty a.resource_name then default_resource_name else a.resource_name)
          ns
          name
          key
      → laws.value (run_annotator api dial a ticks w).1 ns name key ≡ laws.value w ns name key
  unfolding run_annotator with_defaults
  run_annotator_keeps dial a ticks w ns name key aside =
      by_dial (dial (with_defaults a).socket_path)
    where
      by_dial :
          (r : Result String (Unit {0}))
          → laws.value (dialled api dial (with_defaults a) ticks r w).1 ns name key
            ≡ laws.value w ns name key
      by_dial (err e) = refl
      by_dial (ok u) =
          rounds_keep (λ (v : W). laws.value v ns name key)
            (reconcile api (with_defaults a).resource_name)
            (round_keeps (with_defaults a).resource_name ns name key aside) ticks w
