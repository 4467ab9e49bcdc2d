-- ===== src/Cli/Monitoring.antt =====
-- pkg/cli/gpu_monitoring.go: monitoring on a cluster that is there.
use sims.Prelude.{String, [], ◌∷◌}
use sims.Prelude.Commands.{Command, ◌>>=◌, ◌>>◌, call, within, attempt, finally, effect}
use sims.K8s.{Quantities}
use sims.Text.{concat}
use sims.Helm.Client.{Client, new}
use sims.Helm.Actions.{uninstall}
use sims.Kube.Clients.{vendor_in, remove}
use sims.Cli.Host.{Host, CliError, client_failed, helm_failed, kube_failed}
use sims.Cli.Select.{resolve_cluster_and_kubeconfig}
use sims.Cli.Create.{install_monitoring, monitoring_namespace, monitoring_release, closed}

module _ {qs : Quantities} {W : Type 0} (host : Host qs W) where
  abbrev pub enabled_text : String → String
  enabled_text name = concat (
      "monitoring enabled on cluster \"" ∷ name ∷ "\"\nkubectl -n " ∷ monitoring_namespace
      ∷ " port-forward svc/" ∷ monitoring_release ∷ "-grafana 3000:80\n" ∷ [])

  unfoldable pub run_monitoring_enable : String → Command W CliError (Unit {0})
  run_monitoring_enable name = do
    resolved ← resolve_cluster_and_kubeconfig host.kind name
    vendor ← within kube_failed (vendor_in qs host.connect resolved.1)
    install_monitoring host resolved.1 vendor
    effect (λ w. (host.print (enabled_text resolved.0) w).1)

  abbrev pub disabled_text : String → String
  disabled_text name = concat (
      "monitoring disabled on cluster \"" ∷ name ∷ "\" (namespace " ∷ monitoring_namespace
      ∷ " scheduled for deletion)\n" ∷ [])

  -- A failure of the uninstall is logged, and the namespace is deleted all the same.
  abbrev pub disable : String → String → Client → Command W CliError (Unit {0})
  disable name kubeconfig c = do
    r ← attempt (within helm_failed (uninstall host.helm c monitoring_release))
    within kube_failed (remove qs host.connect kubeconfig monitoring_namespace)
    effect (λ w. (host.print (disabled_text name) w).1)

  unfoldable pub run_monitoring_disable : String → Command W CliError (Unit {0})
  run_monitoring_disable name = do
    resolved ← resolve_cluster_and_kubeconfig host.kind name
    c ← call client_failed (new host.files resolved.1 monitoring_namespace)
    finally (closed host c) (disable resolved.0 resolved.1 c)
