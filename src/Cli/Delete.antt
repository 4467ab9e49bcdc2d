-- ===== src/Cli/Delete.antt =====
-- pkg/cli/gpu_delete.go: deleting a cluster, after the releases that sims may have installed in it.
use sims.Prelude.{String, List, [], ◌∷◌, Option, none, some, if◌then◌else◌}
use sims.Prelude.Results.{Result, ok, err}
use sims.Prelude.Commands.{Command, ◌>>=◌, ◌>>◌, call, lift, within, attempt, effect, done}
use sims.K8s.{Quantities}
use sims.Text.{concat, is_empty}
use sims.Cluster.{list, kube_config, delete}
use sims.Helm.Client.{Client, NewError, new, close}
use sims.Helm.Actions.{uninstall}
use sims.Cli.Host.{Host, CliError, cluster_failed, helm_failed, several_clusters}
use sims.Cli.Select.{filter_sims_clusters, contains_name}

-- The releases and their namespaces.
abbrev pub known_releases : List (String × String)
known_releases =
    ("sims-nvidia", "gpu-operator")
    ∷ ("sims-amd", "gpu-operator")
    ∷ ("sims-monitoring", "monitoring")
    ∷ []

-- No cluster to delete is no error.
abbrev pub only_or_none : List String → Result CliError (Option String)
only_or_none [] = ok none
only_or_none (n ∷ []) = ok (some n)
only_or_none (n ∷ m ∷ ns) = err (several_clusters (n ∷ m ∷ ns))

abbrev pub there : List String → Option String → Option String
there all none = none
there all (some name) = if contains_name all name then some name else none

abbrev pub checked : List String → Result CliError (Option String) → Result CliError (Option String)
checked all (err e) = err e
checked all (ok o) = ok (there all o)

-- The cluster that is to be deleted, where there is one.
unfoldable pub target : String → List String → Result CliError (Option String)
unfolding filter_sims_clusters contains_name
target name all =
    checked all (if is_empty name then only_or_none (filter_sims_clusters all) else ok (some name))

module _ {qs : Quantities} {W : Type 0} (host : Host qs W) where
  -- The client's file goes, and an error of the close is dropped.
  abbrev pub closed : Client → W → W
  closed c w = let (r, c', w') = close host.files c w in w'

  -- A client that cannot be made is logged, and its release is skipped; so is an error of the uninstall.
  abbrev pub with_client : String → Result NewError Client → Command W CliError (Unit {0})
  with_client release (err e) = done tt
  with_client release (ok c) = do
    r ← attempt (within helm_failed (uninstall host.helm c release))
    effect (closed c)

  unfoldable pub uninstall_known_releases :
      List (String × String) → String → Command W CliError (Unit {0})
  uninstall_known_releases [] kubeconfig = done tt
  uninstall_known_releases ((release, namespace) ∷ rest) kubeconfig = do
    c ← attempt (call (λ (e : NewError). e) (new host.files kubeconfig namespace))
    with_client release c
    uninstall_known_releases rest kubeconfig

  -- Without a kubeconfig nothing is uninstalled.
  abbrev pub uninstall_with : Result CliError String → Command W CliError (Unit {0})
  uninstall_with (err e) = done tt
  uninstall_with (ok kubeconfig) = uninstall_known_releases known_releases kubeconfig

  abbrev pub deleted_text : String → String
  deleted_text name =
      concat
        ("cluster \"" ∷ name ∷ "\" deleted; kubeconfig context kind-" ∷ name ∷ " removed\n" ∷ [])

  abbrev pub delete_target : Option String → Command W CliError (Unit {0})
  delete_target none = done tt
  delete_target (some name) = do
    kubeconfig ← attempt (call cluster_failed (kube_config host.kind name))
    uninstall_with kubeconfig
    call cluster_failed (delete host.kind name)
    effect (λ w. (host.print (deleted_text name) w).1)

  unfoldable pub run_delete : String → Command W CliError (Unit {0})
  unfolding target uninstall_known_releases
  run_delete name = do
    all ← call cluster_failed (list host.kind)
    chosen ← lift (λ (e : CliError). e) (target name all)
    delete_target chosen
