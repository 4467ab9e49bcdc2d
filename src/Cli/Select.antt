-- ===== src/Cli/Select.antt =====
-- pkg/cli: the choice of a cluster, in gpu_delete.go, gpu_dashboard.go, gpu_monitoring.go and
-- gpu_status.go, and the list of gpu_list.go.
use sims.Prelude.{
  String, Bool, true, false, ◌||◌, List, [], ◌∷◌, if◌then◌else◌, ◌==◌, ◌≡◌, refl, sym, In, inl, inr,
  Bool-cases, eq_iff, ◌↔◌, eq_refl,
}
use sims.Prelude.Results.{Result, ok, err, Call}
use sims.Prelude.Commands.{Command, ◌>>=◌, ◌>>◌, call, lift, done}
use sims.Text.{has_prefix, is_empty}
use sims.Cluster.{Kind, list, kube_config}
use sims.Cli.Host.{
  CliError, cluster_failed, no_cluster, several_clusters, cluster_not_found, print_failed,
}

abbrev pub sims_cluster_prefix : String
sims_cluster_prefix = "sims-"

unfoldable pub filter_sims_clusters : List String → List String
filter_sims_clusters [] = []
filter_sims_clusters (n ∷ ns) =
    let rest = filter_sims_clusters ns in
    if has_prefix n sims_cluster_prefix then n ∷ rest else rest

-- slices.Contains
unfoldable pub contains_name : List String → String → Bool
contains_name [] name = false
contains_name (n ∷ ns) name = n == name || contains_name ns name

abbrev pub only_one : List String → Result CliError String
only_one [] = err no_cluster
only_one (n ∷ []) = ok n
only_one (n ∷ m ∷ ns) = err (several_clusters (n ∷ m ∷ ns))

abbrev pub existing : List String → String → Result CliError String
existing all name = if contains_name all name then ok name else err (cluster_not_found name)

-- The name in resolveClusterName: the only cluster is returned at once.
unfoldable pub resolve_name : String → List String → Result CliError String
unfolding filter_sims_clusters contains_name
resolve_name name all =
    if is_empty name then only_one (filter_sims_clusters all) else existing all name

abbrev pub then_existing : List String → Result CliError String → Result CliError String
then_existing all (err e) = err e
then_existing all (ok name) = existing all name

-- The name in resolveClusterAndKubeconfig and in runStatus: the only cluster is looked up as well.
unfoldable pub resolve_and_check : String → List String → Result CliError String
unfolding filter_sims_clusters contains_name
resolve_and_check name all =
    then_existing all (if is_empty name then only_one (filter_sims_clusters all) else ok name)

module _ {W : Type 0} (kind : Kind W) where
  unfoldable pub resolve_cluster_name : String → Command W CliError String
  unfolding resolve_name
  resolve_cluster_name name = do
    all ← call cluster_failed (list kind)
    lift (λ (e : CliError). e) (resolve_name name all)

  unfoldable pub resolve_cluster_and_kubeconfig : String → Command W CliError (String × String)
  unfolding resolve_and_check
  resolve_cluster_and_kubeconfig name = do
    all ← call cluster_failed (list kind)
    resolved ← lift (λ (e : CliError). e) (resolve_and_check name all)
    kubeconfig ← call cluster_failed (kube_config kind resolved)
    done (resolved, kubeconfig)

  -- `print` is Fprintln on standard output.
  module _ (print : String → Call W (Result String (Unit {0}))) where
    unfoldable pub print_all : List String → Command W CliError (Unit {0})
    print_all [] = done tt
    print_all (n ∷ ns) = do call print_failed (print n); print_all ns

    abbrev pub listed : List String → Command W CliError (Unit {0})
    listed [] = call print_failed (print "(none)")
    listed (n ∷ ns) = print_all (n ∷ ns)

    unfoldable pub run_list : Command W CliError (Unit {0})
    unfolding filter_sims_clusters print_all
    run_list = do all ← call cluster_failed (list kind); listed (filter_sims_clusters all)

pub contains_name_iff :
    (all : List String) (name : String) → (contains_name all name ≡ true) ↔ In name all
unfolding contains_name
contains_name_iff [] name = (λ h. cc, λ h. absurd h)
contains_name_iff (n ∷ ns) name = elim (Bool-cases (n == name)) [
  | inl same ↦ rw same (λ h. inl (sym ((eq_iff n name).0 same)), λ h. refl)
  | inr other ↦ rw other (
    λ h. inr ((contains_name_iff ns name).0 h),
    λ h. elim h [
      | inl e ↦ absurd (differ (rw (← e, eq_refl name) at other))
      | inr i ↦ (contains_name_iff ns name).1 i
    ],
  )
]
  where
    differ : true ≡ false → ⊥
    differ e = cc

-- The sims clusters are those of the host whose name starts with the prefix.
pub filter_exact :
    (all : List String) (name : String)
    → In name (filter_sims_clusters all)
    → In name all × (has_prefix name sims_cluster_prefix ≡ true)
unfolding filter_sims_clusters
filter_exact [] name i = absurd i
filter_exact (n ∷ ns) name i = elim (Bool-cases (has_prefix n sims_cluster_prefix)) [
  | inl sims ↦ elim (rw sims at i) [
    | inl e ↦ (inl e, rw e sims)
    | inr j ↦ let (k, p) = filter_exact ns name j in (inr k, p)
  ]
  | inr other ↦ let (k, p) = filter_exact ns name (rw other at i) in (inr k, p)
]
