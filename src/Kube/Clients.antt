-- ===== src/Kube/Clients.antt =====
-- pkg/kube: the exported functions, which first make a client of a kubeconfig. A client, and the clock
-- behind a context's timeout, are parameters on the world `W`.
use sims.Prelude.{ℕ, String, Bool, List}
use sims.Prelude.Int.{ℤ}
use sims.Prelude.Maps.{Map}
use sims.Prelude.Results.{Result, Call}
use sims.Prelude.Commands.{Command, ◌>>=◌, call, lift, within}
use sims.K8s.{ApiError, Quantities, Node, Pod}
use sims.Kube.Namespace.{Namespaces, NamespaceError, ensure_namespace, delete_namespace}
use sims.Kube.Snapshot.{ClusterSnapshot, SnapshotError, snapshot, detect_vendor}
use sims.Kube.Wait.{WaitError, wait_for_capacity, wait_for_deployment_available}

pub data KubeError : Type 0 where
  no_client : String → KubeError
  namespace_failed : NamespaceError → KubeError
  wait_failed : WaitError → KubeError
  snapshot_failed : SnapshotError → KubeError

-- context.WithTimeout, its cancel, and the ticker of a wait, which no longer fires when the context is
-- done.
pub record Timers (W : Type 0) : Type 0 where
  pub with_timeout : ℕ → W → W
  pub cancel : W → W
  pub tick : Call W Bool

module _ (qs : Quantities) where
  -- kubernetes.Interface: the calls of it that the package makes.
  pub record Clientset (W : Type 0) : Type 0 where
    pub namespaces : Namespaces W
    pub list_nodes : Call W (Result String (List (Node qs.Q)))
    pub list_labelled : Call W (Result String (List (Node qs.Q)))
    pub list_pods : Call W (Result String (List (Pod qs.Q)))
    pub get_deployment : String → String → Call W (Result ApiError (List (String × String)))

  -- `connect` is newClientset.
  module _ {W : Type 0} (connect : String → Result String (Clientset W)) where
    unfoldable pub ensure : String → String → Map String → Command W KubeError (Unit {0})
    ensure kubeconfig name labels = do
      cs ← lift no_client (connect kubeconfig)
      call namespace_failed (ensure_namespace cs.namespaces name labels)

    unfoldable pub remove : String → String → Command W KubeError (Unit {0})
    remove kubeconfig name = do
      cs ← lift no_client (connect kubeconfig)
      call namespace_failed (delete_namespace cs.namespaces name)

    unfoldable pub take_snapshot : String → Command W KubeError ClusterSnapshot
    take_snapshot kubeconfig = do
      cs ← lift no_client (connect kubeconfig)
      call snapshot_failed (snapshot qs cs.list_nodes cs.list_pods)

    unfoldable pub vendor_in : String → Command W KubeError String
    vendor_in kubeconfig = do
      cs ← lift no_client (connect kubeconfig)
      call snapshot_failed (detect_vendor qs cs.list_labelled)

    module _ (timers : Timers W) (fuel : ℕ) where
      unfoldable pub await_capacity : String → String → ℤ → ℤ → Command W KubeError (Unit {0})
      await_capacity kubeconfig resource per_node nodes = do
        cs ← lift no_client (connect kubeconfig)
        within wait_failed
            (wait_for_capacity qs cs.list_labelled timers.tick resource per_node nodes fuel)

      unfoldable pub await_deployment : String → String → String → Command W KubeError (Unit {0})
      await_deployment kubeconfig namespace name = do
        cs ← lift no_client (connect kubeconfig)
        within wait_failed
            (wait_for_deployment_available (cs.get_deployment namespace name) timers.tick fuel)
