-- ===== src/Cli/Leaves.antt =====
-- pkg/cli: what the steps of a create leave as it was.
use sims.Prelude.{ℕ, String, Bool, true, false, ◌≡◌}
use sims.Prelude.Commands.{
  Command, Keeps, done-Keeps, effect-Keeps, call-Keeps, within-Keeps, >>=-Keeps, call, within,
  effect, finally-Keeps, finally, ◌>>=◌, ◌>>◌,
}
use sims.K8s.{Quantities}
use sims.Cluster.{kube_config, kube_config_failed, guarded_keeps}
use sims.Helm.Client.{Client, new}
use sims.Helm.Actions.{Value}
use sims.Helm.Kept.{install-Keeps, ensure_dependencies-Keeps, HelmKeeps}
use sims.Kube.Kept.{ensure-Keeps, await_capacity-Keeps, await_deployment-Keeps, ClientsetKeeps}
use sims.Cli.Host.{Host, CliError, cluster_failed, helm_failed, kube_failed, client_failed}
use sims.Cli.Values.{CreateOpts}
use sims.Cli.Create.{
  run_create, install_chart, install_monitoring, when, under_timeout, monitor, validate_vendor,
  render_options, cluster_name, chart_namespace, psa_privileged_labels,
}
use sims.Cli.Create as Creating
use sims.Prelude.Results.{ok}
use sims.Kube.Clients.{Clientset, ensure}

-- What a create calls leaves what `view` shows, but for kind's create; a client that is made for a body
-- that leaves it, and closed after the body, does so too.
pub record HostKeeps {qs : Quantities} {W : Type 0} (T : Type 0) (view : W → T) (host : Host qs W)
    : Type 1 where
  pub helm : HelmKeeps T view host.helm
  pub clients :
      (kubeconfig : String) (cs : Clientset qs W)
      → host.connect kubeconfig ≡ ok cs
      → ClientsetKeeps T view qs cs
  pub kube_config : (n : String) (w : W) → view (host.kind.kube_config n w).1 ≡ view w
  pub print : (t : String) (w : W) → view (host.print t w).1 ≡ view w
  pub timeout : (n : ℕ) (w : W) → view (host.timers.with_timeout n w) ≡ view w
  pub cancel : (w : W) → view (host.timers.cancel w) ≡ view w
  pub tick : (w : W) → view (host.timers.tick w).1 ≡ view w
  pub bracket :
      {A : Type 0} (kubeconfig namespace : String) (body : Client → Command W CliError A)
      → ((c : Client) → Keeps view (body c))
      → Keeps view (
          call client_failed (new host.files kubeconfig namespace)
          >>= (λ c. finally (Creating.closed host c) (body c)))

module _ {qs : Quantities} {W T : Type 0} (view : W → T) (host : Host qs W)
    (laws : HostKeeps T view host) where
  install_chart-Keeps :
      (c : Client) (release chart : String) (values : Value)
      → Keeps view (install_chart host c release chart values)
  unfolding install_chart
  install_chart-Keeps c release chart values w w' r h =
      >>=-Keeps view (within helm_failed _) (λ _. within helm_failed _)
        (within-Keeps view helm_failed _ (ensure_dependencies-Keeps view host.helm laws.helm c _))
        (λ _.
          within-Keeps view helm_failed _
            (install-Keeps view host.helm laws.helm c release _ values _))
        w w' r h

  timeout-Keeps :
      (seconds : ℕ) (m : Command W CliError (Unit {0}))
      → Keeps view m
      → Keeps view (under_timeout host seconds m)
  timeout-Keeps seconds m kept =
      >>=-Keeps view (effect (host.timers.with_timeout seconds)) _
        (effect-Keeps view (host.timers.with_timeout seconds) (laws.timeout seconds))
        (λ _. finally-Keeps view host.timers.cancel m laws.cancel kept)

  pub print-Keeps :
      (text : String) → Keeps view (effect {E = CliError} (λ w. (host.print text w).1))
  print-Keeps text = effect-Keeps view (λ w. (host.print text w).1) (laws.print text)

  pub install_monitoring-Keeps :
      (kubeconfig vendor : String) → Keeps view (install_monitoring host kubeconfig vendor)
  unfolding install_monitoring
  install_monitoring-Keeps kubeconfig vendor =
      >>=-Keeps view (within kube_failed _) _
        (within-Keeps view kube_failed _
          (ensure-Keeps view qs host.connect laws.clients kubeconfig _ _))
        (λ _. laws.bracket kubeconfig _ (monitor host kubeconfig vendor) (λ c.
          >>=-Keeps view (install_chart host c _ _ _) _ (install_chart-Keeps c _ _ _) (λ _.
            timeout-Keeps 240 _ (
              within-Keeps view kube_failed _ (
                await_deployment-Keeps view qs host.connect laws.clients host.timers host.fuel
                  laws.tick kubeconfig _ _)))))

  when-Keeps :
      (b : Bool) (m : Command W CliError (Unit {0})) → Keeps view m → Keeps view (when host b m)
  when-Keeps true m kept = kept
  when-Keeps false m kept = done-Keeps view tt

  pub kube_config-Keeps :
      (name : String) → Keeps view (call cluster_failed (kube_config host.kind name))
  unfolding kube_config
  kube_config-Keeps name = call-Keeps view cluster_failed (kube_config host.kind name) (λ w.
      guarded_keeps host.kind view (kube_config_failed name) (host.kind.kube_config name)
        (laws.kube_config name) (host.kind.ctx_err w) w)

  with_client-Keeps :
      (o : CreateOpts) (kubeconfig : String) (c : Client)
      → Keeps view (Creating.with_client host o kubeconfig c)
  with_client-Keeps o kubeconfig c =
      >>=-Keeps view (install_chart host c _ _ _) _ (install_chart-Keeps c _ _ _) (λ _.
        timeout-Keeps 120 _ (
          >>=-Keeps view (within kube_failed _) _
            (within-Keeps view kube_failed _ (
              await_capacity-Keeps view qs host.connect laws.clients host.timers host.fuel laws.tick
                kubeconfig _ _ _))
            (λ _.
              >>=-Keeps view (when host o.with_monitoring _) _
                (when-Keeps o.with_monitoring _ (install_monitoring-Keeps kubeconfig o.vendor))
                (λ _. print-Keeps (Creating.ready_text host o)))))

  -- What create does once kind has made the cluster.
  pub equipped-Keeps :
      (o : CreateOpts)
      → Keeps view (
          call cluster_failed (kube_config host.kind (cluster_name o)) >>= (λ kubeconfig.
            within kube_failed
              (ensure qs host.connect kubeconfig chart_namespace psa_privileged_labels)
            >> (call client_failed (new host.files kubeconfig chart_namespace) >>= (λ c.
                finally (Creating.closed host c) (Creating.with_client host o kubeconfig c)))))
  equipped-Keeps o =
      >>=-Keeps view (call cluster_failed (kube_config host.kind (cluster_name o))) _
        (kube_config-Keeps (cluster_name o))
        (λ kubeconfig.
          >>=-Keeps view (within kube_failed _) _
            (within-Keeps view kube_failed _
              (ensure-Keeps view qs host.connect laws.clients kubeconfig _ _))
            (λ _.
              laws.bracket kubeconfig _ (Creating.with_client host o kubeconfig)
                (with_client-Keeps o kubeconfig)))
