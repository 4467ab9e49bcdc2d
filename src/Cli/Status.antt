-- ===== src/Cli/Status.antt =====
-- pkg/cli/gpu_status.go: the report on a cluster. The alignment of the tables is left out: a row is its
-- cells.
use sims.Prelude.{String, List, [], ◌∷◌, map, if◌then◌else◌}
use sims.Prelude.Int.{pos, ltb_ℤ}
use sims.Prelude.Results.{Result, Call}
use sims.Prelude.Commands.{done, ◌>>◌, Command, ◌>>=◌, call, lift, within}
use sims.K8s.{Quantities}
use sims.Text.{append, concat, is_empty}
use sims.Text.Decimal.{itoa_ℤ}
use sims.Cluster.{list, kube_config}
use sims.Kube.Clients.{take_snapshot}
use sims.Kube.Snapshot.{ClusterSnapshot, NodeSnapshot, PodSnapshot}
use sims.Cli.Host.{Host, CliError, cluster_failed, kube_failed, print_failed}
use sims.Cli.Select.{resolve_and_check}

-- What is written: a text, or the flush of a table.
pub data Piece : Type 0 where
  text : String → Piece
  table : List (List String) → Piece

abbrev pub or_else : String → String → String
or_else s fallback = if is_empty s then fallback else s

abbrev pub node_row : NodeSnapshot → List String
node_row n =
    n.name ∷ n.role ∷ (if ltb_ℤ (pos 0) n.gpu_capacity then itoa_ℤ n.gpu_capacity else "-") ∷ []

abbrev pub pod_row : PodSnapshot → List String
pod_row p = p.namespace ∷ p.name ∷ or_else p.node "<unscheduled>" ∷ itoa_ℤ p.gpus ∷ p.phase ∷ []

-- "(none)" where there are no GPU pods, and else a table with its head.
abbrev pub pod_table : List PodSnapshot → Piece
pod_table [] = text "(none)\n"
pod_table (p ∷ ps) =
    table (("NAMESPACE" ∷ "POD" ∷ "NODE" ∷ "GPUS" ∷ "PHASE" ∷ []) ∷ map pod_row (p ∷ ps))

-- What writeStatus writes, in this order.
unfoldable pub pieces : String → ClusterSnapshot → List Piece
pieces name snap =
    text (
      concat (
        "Cluster:   "
        ∷ name
        ∷ "\nVendor:    "
        ∷ or_else snap.vendor "<unknown>"
        ∷ "\nK8s:       "
        ∷ snap.k8s_version
        ∷ "\n"
        ∷ []))
    ∷ text "\nNODES\n"
    ∷ table (("NAME" ∷ "ROLE" ∷ "GPU CAPACITY" ∷ []) ∷ map node_row snap.nodes)
    ∷ text (
        concat (
          "\nGPU PODS ("
          ∷ (if is_empty snap.vendor then "<unknown>" else append snap.vendor ".com/gpu")
          ∷ ")\n"
          ∷ []))
    ∷ pod_table snap.gpu_pods
    ∷ []

module _ {W : Type 0} (write : Piece → Call W (Result String (Unit {0}))) where
  -- The first write that fails ends the report.
  unfoldable pub write_all : List Piece → Command W CliError (Unit {0})
  write_all [] = done tt
  write_all (p ∷ ps) = do call print_failed (write p); write_all ps

  unfoldable pub write_status : String → ClusterSnapshot → Command W CliError (Unit {0})
  unfolding pieces write_all
  write_status name snap = write_all (pieces name snap)

module _ {qs : Quantities} {W : Type 0} (host : Host qs W)
    (write : Piece → Call W (Result String (Unit {0}))) where
  unfoldable pub run_status : String → Command W CliError (Unit {0})
  unfolding write_status
  run_status name = do
    all ← call cluster_failed (list host.kind)
    resolved ← lift (λ (e : CliError). e) (resolve_and_check name all)
    kubeconfig ← call cluster_failed (kube_config host.kind resolved)
    snap ← within kube_failed (take_snapshot qs host.connect kubeconfig)
    write_status write resolved snap
