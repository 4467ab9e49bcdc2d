-- ===== src/Kube/Kept.antt =====
-- pkg/kube: what the exported functions leave as it was, and that they return.
use sims.Prelude.{
  ℕ, zero, suc, String, Bool, true, false, Option, some, if◌then◌else◌, ◌≡◌, refl, ◌∙◌,
}
use sims.Prelude.Int.{ℤ}
use sims.Prelude.Maps.{Map}
use sims.Prelude.Results.{Result, ok, err, Call}
use sims.Prelude.Commands.{Command, Keeps, call-Keeps, within-Keeps, some-Keeps, lift, next}
use sims.K8s.{ApiError, not_found, already_exists, Quantities}
use sims.Kube.Namespace.{
  NamespaceError, get_failed, get_after_race_failed, merge_labels, updated, label, created,
  looked_up, ensure_namespace, delete_namespace,
}
use sims.Kube.Snapshot.{detect_vendor}
use sims.Kube.Wait.{
  WaitError, check_failed, cancelled, poll, wait_for_capacity, wait_for_deployment_available,
}
use sims.Kube.Clients.{
  KubeError, no_client, namespace_failed, wait_failed, Timers, Clientset, ensure, remove, vendor_in,
  await_capacity, await_deployment, snapshot_failed,
}

-- The calls of a client change the cluster, and not what `view` shows.
pub record ClientsetKeeps {W : Type 0} (T : Type 0) (view : W → T) (qs : Quantities)
    (cs : Clientset qs W) : Type 0 where
  pub get : (n : String) (w : W) → view (cs.namespaces.get n w).1 ≡ view w
  pub create : (n : String) (l : Map String) (w : W) → view (cs.namespaces.create n l w).1 ≡ view w
  pub update : (n : String) (l : Map String) (w : W) → view (cs.namespaces.update n l w).1 ≡ view w
  pub delete : (n : String) (w : W) → view (cs.namespaces.delete n w).1 ≡ view w
  pub list_labelled : (w : W) → view (cs.list_labelled w).1 ≡ view w
  pub get_deployment : (n d : String) (w : W) → view (cs.get_deployment n d w).1 ≡ view w

module _ {W T : Type 0} (view : W → T) where
  module _ (qs : Quantities) (cs : Clientset qs W) (laws : ClientsetKeeps T view qs cs) where
    updated_keeps :
        (name : String) (p : Map String × Bool) (w : W)
        → view (updated cs.namespaces name p w).1 ≡ view w
    updated_keeps name (m, false) w = refl
    updated_keeps name (m, true) w = laws.update name m w

    label_keeps :
        (f : ApiError → NamespaceError) (name : String) (labels : Map String)
        (p : Result ApiError (Map String) × W) (w0 : W)
        → view p.1 ≡ view w0
        → view (label cs.namespaces f name labels p).1 ≡ view w0
    label_keeps f name labels (err e, w) w0 h = h
    label_keeps f name labels (ok m, w) w0 h = updated_keeps name (merge_labels labels m) w ∙ h

    created_keeps :
        (name : String) (labels : Map String) (p : Result ApiError (Unit {0}) × W) (w0 : W)
        → view p.1 ≡ view w0
        → view (created cs.namespaces name labels p).1 ≡ view w0
    created_keeps name labels (ok u, w) w0 h = h
    created_keeps name labels (err already_exists, w) w0 h =
        label_keeps get_after_race_failed name labels (cs.namespaces.get name w) w0
          (laws.get name w ∙ h)
    created_keeps name labels (err not_found, w) w0 h = h
    created_keeps name labels (err (ApiError.other t), w) w0 h = h

    looked_up_keeps :
        (name : String) (labels : Map String) (p : Result ApiError (Map String) × W) (w0 : W)
        → view p.1 ≡ view w0
        → view (looked_up cs.namespaces name labels p).1 ≡ view w0
    looked_up_keeps name labels (err not_found, w) w0 h =
        created_keeps name labels (cs.namespaces.create name labels w) w0
          (laws.create name labels w ∙ h)
    looked_up_keeps name labels (err already_exists, w) w0 h = h
    looked_up_keeps name labels (err (ApiError.other t), w) w0 h = h
    looked_up_keeps name labels (ok m, w) w0 h = label_keeps get_failed name labels (ok m, w) w0 h

    pub ensure_namespace_keeps :
        (name : String) (labels : Map String) (w : W)
        → view (ensure_namespace cs.namespaces name labels w).1 ≡ view w
    unfolding ensure_namespace
    ensure_namespace_keeps name labels w =
        looked_up_keeps name labels (cs.namespaces.get name w) w (laws.get name w)

  -- A wait whose checks and ticks keep the view keeps it.
  polled :
      (r : Result String Bool) (w0 w1 w2 : W) (fired : Bool)
      (rest : Option (Result WaitError (Unit {0}) × W))
      → view w1 ≡ view w0
      → view w2 ≡ view w0
      → ((w' : W) (q : Result WaitError (Unit {0})) → rest ≡ some (q, w') → view w' ≡ view w2)
      → (w' : W) (q : Result WaitError (Unit {0}))
      → elim r as (λ r. Option (Result WaitError (Unit {0}) × W)) [
        | err e ↦ some (err (check_failed e), w1)
        | ok b ↦ elim b as (λ b. Option (Result WaitError (Unit {0}) × W)) [
          | true ↦ some (ok tt, w1)
          | false ↦ if fired then rest else some (err cancelled, w2)
        ]
      ]
        ≡ some (q, w')
      → view w' ≡ view w0
  polled (err e) w0 w1 w2 fired rest h1 h2 later w' q h = some-Keeps view w0 w1 _ h1 w' q h
  polled (ok true) w0 w1 w2 fired rest h1 h2 later w' q h = some-Keeps view w0 w1 _ h1 w' q h
  polled (ok false) w0 w1 w2 true rest h1 h2 later w' q h = later w' q h ∙ h2
  polled (ok false) w0 w1 w2 false rest h1 h2 later w' q h = some-Keeps view w0 w2 _ h2 w' q h

  poll-Keeps :
      (check : Call W (Result String Bool)) (tick : Call W Bool) (fuel : ℕ)
      → ((w : W) → view (check w).1 ≡ view w)
      → ((w : W) → view (tick w).1 ≡ view w)
      → Keeps view (poll check tick fuel)
  unfolding poll
  poll-Keeps check tick zero kc kt w w' r h = cc
  poll-Keeps check tick (suc fuel) kc kt w w' r h =
      polled (check w).0 w (check w).1 (tick (check w).1).1 (tick (check w).1).0
        (poll check tick fuel (tick (check w).1).1) (kc w) (kt (check w).1 ∙ kc w)
        (λ w2 q e. poll-Keeps check tick fuel kc kt (tick (check w).1).1 w2 q e) w' r h

  module _ (qs : Quantities) (connect : String → Result String (Clientset qs W))
      (laws : (kubeconfig : String) (cs : Clientset qs W)
        → connect kubeconfig ≡ ok cs
        → ClientsetKeeps T view qs cs) where
    -- What follows newClientset keeps the view where every client's calls do.
    connected-Keeps :
        {A : Type 0} (kubeconfig : String) (rest : Clientset qs W → Command W KubeError A)
        → ((cs : Clientset qs W) → ClientsetKeeps T view qs cs → Keeps view (rest cs))
        → (r0 : Result String (Clientset qs W)) → connect kubeconfig ≡ r0
        → (w w' : W) (r : Result KubeError A) → next rest (lift no_client r0 w) ≡ some (r, w')
        → view w' ≡ view w
    connected-Keeps kubeconfig rest kept (err e) c w w' r h = some-Keeps view w w _ refl w' r h
    connected-Keeps kubeconfig rest kept (ok cs) c w w' r h =
        kept cs (laws kubeconfig cs c) w w' r h

    pub ensure-Keeps :
        (kubeconfig name : String) (labels : Map String)
        → Keeps view (ensure qs connect kubeconfig name labels)
    unfolding ensure
    ensure-Keeps kubeconfig name labels =
        connected-Keeps kubeconfig _
          (λ cs l.
            call-Keeps view namespace_failed (ensure_namespace cs.namespaces name labels)
              (ensure_namespace_keeps qs cs l name labels))
          (connect kubeconfig) refl

    pub remove-Keeps : (kubeconfig name : String) → Keeps view (remove qs connect kubeconfig name)
    unfolding remove
    remove-Keeps kubeconfig name =
        connected-Keeps kubeconfig _
          (λ cs l.
            call-Keeps view namespace_failed (delete_namespace cs.namespaces name)
              (unfold delete_namespace in l.delete name))
          (connect kubeconfig) refl

    pub vendor_in-Keeps : (kubeconfig : String) → Keeps view (vendor_in qs connect kubeconfig)
    unfolding vendor_in
    vendor_in-Keeps kubeconfig =
        connected-Keeps kubeconfig _
          (λ cs l.
            call-Keeps view snapshot_failed (detect_vendor qs cs.list_labelled)
              (unfold detect_vendor in l.list_labelled))
          (connect kubeconfig) refl

    module _ (timers : Timers W) (fuel : ℕ)
        (ticks : (w : W) → view (timers.tick w).1 ≡ view w) where
      pub await_capacity-Keeps :
          (kubeconfig resource : String) (per_node nodes : ℤ)
          → Keeps view (await_capacity qs connect timers fuel kubeconfig resource per_node nodes)
      unfolding await_capacity wait_for_capacity
      await_capacity-Keeps kubeconfig resource per_node nodes =
          connected-Keeps kubeconfig _
            (λ cs l.
              within-Keeps view wait_failed (poll _ timers.tick fuel)
                (poll-Keeps _ timers.tick fuel l.list_labelled ticks))
            (connect kubeconfig) refl

      pub await_deployment-Keeps :
          (kubeconfig namespace name : String)
          → Keeps view (await_deployment qs connect timers fuel kubeconfig namespace name)
      unfolding await_deployment wait_for_deployment_available
      await_deployment-Keeps kubeconfig namespace name =
          connected-Keeps kubeconfig _
            (λ cs l.
              within-Keeps view wait_failed (poll _ timers.tick fuel)
                (poll-Keeps _ timers.tick fuel (l.get_deployment namespace name) ticks))
            (connect kubeconfig) refl
