-- ===== src/Cli/Ends.antt =====
-- pkg/cli/gpu_create.go: a create returns.
use sims.Prelude.{
  ℕ, ◌≤◌, ◌<◌, String, Bool, true, false, List, Option, none, some, ◌≡◌, refl, arith,
}
use sims.Prelude.Int.{ℤ}
use sims.Prelude.Maps.{Map}
use sims.Prelude.Results.{Result, ok, err}
use sims.Prelude.Commands.{
  Command, Ends, within-Ends, finally-Ends, >>=-Ends, next, call, within, lift,
}
use sims.K8s.{Quantities}
use sims.Text.{append}
use sims.Config.KindConfig.{render}
use sims.Cluster.{create, kube_config}
use sims.Helm.Client.{Client, new}
use sims.Helm.Actions.{
  HelmError, Value, install, ensure_dependencies, unless_cancelled, action_config, locate_and_load,
  InstallAction,
}
use sims.Kube.Clients.{
  Clientset, KubeError, no_client, wait_failed, ensure, await_capacity, await_deployment,
}
use sims.Kube.Wait.{wait_for_capacity, wait_for_deployment_available, poll}
use sims.Kube.Timed.{poll_ends}
use sims.Cli.Host.{
  Host, CliError, client_failed, cluster_failed, helm_failed, kube_failed, render_failed,
}
use sims.Cli.Values.{CreateOpts}
use sims.Cli.Create.{
  run_create, install_chart, install_monitoring, monitor, when, under_timeout, with_client,
  validate_vendor, render_options, cluster_name, closed, grafana_ready, capacity_ready, finish,
  vendor_wiring, monitoring_namespace, monitoring_release,
}

-- The clock of the contexts: a timeout leaves at most its seconds, each tick that fires takes from the
-- time that is left, and a check of the cluster does not add to it. The fuel is more than the seconds of
-- the longer of the two timeouts.
pub record IsTimely {qs : Quantities} {W : Type 0} (host : Host qs W) : Type 0 where
  pub left : W → ℕ
  pub starts : (n : ℕ) (w : W) → left (host.timers.with_timeout n w) ≤ n
  pub ticks : (w : W) → (host.timers.tick w).0 ≡ true → left (host.timers.tick w).1 < left w
  pub lists :
      (kubeconfig : String) (cs : Clientset qs W)
      → host.connect kubeconfig ≡ ok cs
      → (w : W) → left (cs.list_labelled w).1 ≤ left w
  pub gets :
      (kubeconfig : String) (cs : Clientset qs W)
      → host.connect kubeconfig ≡ ok cs
      → (n d : String) (w : W) → left (cs.get_deployment n d w).1 ≤ left w
  pub enough : 240 < host.fuel

module _ {qs : Quantities} {W : Type 0} (host : Host qs W) (timely : IsTimely host) where
  connected-Ends :
      {A : Type 0} (kubeconfig : String) (rest : Clientset qs W → Command W KubeError A) (w : W)
      → ((cs : Clientset qs W) → host.connect kubeconfig ≡ ok cs → Ends (rest cs) w)
      → (r : Result String (Clientset qs W)) → host.connect kubeconfig ≡ r
      → (p : Result KubeError A × W) × (next rest (lift no_client r w) ≡ some p)
  connected-Ends kubeconfig rest w ends (err e) c = ((err (no_client e), w), refl)
  connected-Ends kubeconfig rest w ends (ok cs) c = ends cs c

  await_capacity-Ends :
      (kubeconfig resource : String) (per_node nodes : ℤ) (w : W)
      → timely.left w < host.fuel
      → Ends
          (await_capacity qs host.connect host.timers host.fuel kubeconfig resource per_node nodes)
          w
  unfolding await_capacity wait_for_capacity
  await_capacity-Ends kubeconfig resource per_node nodes w less =
      connected-Ends kubeconfig _ w
        (λ cs c. within-Ends wait_failed (poll _ host.timers.tick host.fuel) w (
          poll_ends _ host.timers.tick timely.left host.fuel w (timely.lists kubeconfig cs c)
            timely.ticks less))
        (host.connect kubeconfig) refl

  await_deployment-Ends :
      (kubeconfig namespace name : String) (w : W)
      → timely.left w < host.fuel
      → Ends (await_deployment qs host.connect host.timers host.fuel kubeconfig namespace name) w
  unfolding await_deployment wait_for_deployment_available
  await_deployment-Ends kubeconfig namespace name w less =
      connected-Ends kubeconfig _ w
        (λ cs c. within-Ends wait_failed (poll _ host.timers.tick host.fuel) w (
          poll_ends _ host.timers.tick timely.left host.fuel w
            (timely.gets kubeconfig cs c namespace name) timely.ticks less))
        (host.connect kubeconfig) refl

  ensure-Ends :
      (kubeconfig name : String) (labels : Map String) (w : W)
      → Ends (ensure qs host.connect kubeconfig name labels) w
  unfolding ensure
  ensure-Ends kubeconfig name labels w =
      connected-Ends kubeconfig _ w (λ cs c. (_, refl)) (host.connect kubeconfig) refl

  -- A timeout of at most 240 seconds leaves less time than there is fuel.
  under_timeout-Ends :
      (seconds : ℕ) (m : Command W CliError (Unit {0})) (w : W)
      → seconds ≤ 240
      → ((v : W) → timely.left v < host.fuel → Ends m v)
      → Ends (under_timeout host seconds m) w
  under_timeout-Ends seconds m w short ends =
      finally-Ends host.timers.cancel m (host.timers.with_timeout seconds w) (
        ends (host.timers.with_timeout seconds w)
          (omega (arith, timely.starts seconds w, timely.enough)))

  dependencies-Ends :
      (c : Client) (dir : String) (w : W) → Ends (ensure_dependencies host.helm c dir) w
  unfolding ensure_dependencies
  dependencies-Ends c dir w = by_context (host.helm.ctx_err w)
    where
      by_context :
          (o : Option String)
          → (p : Result HelmError (Unit {0}) × W) × (unless_cancelled host.helm c dir o w ≡ some p)
      by_context none = (_, refl)
      by_context (some e) = (_, refl)

  install-Ends :
      (c : Client) (release dir : String) (values : Value)
      (opts : List (InstallAction → InstallAction)) (w : W)
      → Ends (install host.helm c release dir values opts) w
  unfolding install action_config locate_and_load
  install-Ends c release dir values opts w =
      >>=-Ends (action_config host.helm c) _ w (_, refl)
        (λ cfg w1.
          >>=-Ends (locate_and_load host.helm dir) _ w1
            (>>=-Ends (call _ (host.helm.locate_chart dir)) _ w1 (_, refl) (λ path w2. (_, refl)))
            (λ chart w2. (_, refl)))

  install_chart-Ends :
      (c : Client) (release chart : String) (values : Value) (w : W)
      → Ends (install_chart host c release chart values) w
  unfolding install_chart
  install_chart-Ends c release chart values w =
      >>=-Ends (within helm_failed (ensure_dependencies host.helm c _)) (λ _. within helm_failed _)
        w (within-Ends helm_failed (ensure_dependencies host.helm c _) w (dependencies-Ends c _ w))
        (λ u w1.
          within-Ends helm_failed (install host.helm c release _ values _) w1
            (install-Ends c release _ values _ w1))

  install_monitoring-Ends :
      (kubeconfig vendor : String) (w : W) → Ends (install_monitoring host kubeconfig vendor) w
  unfolding install_monitoring
  install_monitoring-Ends kubeconfig vendor w =
      >>=-Ends (within kube_failed (ensure qs host.connect kubeconfig _ _)) _ w
        (within-Ends kube_failed (ensure qs host.connect kubeconfig _ _) w
          (ensure-Ends kubeconfig _ _ w))
        (λ u w1.
          >>=-Ends (call client_failed (new host.files kubeconfig _)) _ w1 (_, refl)
            (λ c w2. finally-Ends (closed host c) (monitor host kubeconfig vendor c) w2 (
              >>=-Ends (install_chart host c _ _ _) _ w2 (install_chart-Ends c _ _ _ w2) (λ v w3.
                under_timeout-Ends 240 (grafana_ready host kubeconfig) w3 (omega arith) (λ w4 less.
                  within-Ends kube_failed
                    (await_deployment qs host.connect host.timers host.fuel kubeconfig
                      monitoring_namespace (append monitoring_release "-grafana"))
                    w4
                    (await_deployment-Ends kubeconfig monitoring_namespace
                      (append monitoring_release "-grafana") w4 less))))))

  when-Ends :
      (b : Bool) (m : Command W CliError (Unit {0})) (w : W) → Ends m w → Ends (when host b m) w
  when-Ends true m w ends = ends
  when-Ends false m w ends = (_, refl)

  with_client-Ends :
      (o : CreateOpts) (kubeconfig : String) (c : Client) (w : W)
      → Ends (with_client host o kubeconfig c) w
  with_client-Ends o kubeconfig c w =
      >>=-Ends (install_chart host c _ _ _) _ w (install_chart-Ends c _ _ _ w) (λ u w1.
        under_timeout-Ends 120 (finish host o kubeconfig) w1 (omega arith) (λ w2 less.
          >>=-Ends (capacity_ready host o kubeconfig) _ w2
            (within-Ends kube_failed
              (await_capacity qs host.connect host.timers host.fuel kubeconfig
                (vendor_wiring o.vendor).resource o.gpus_per_worker o.workers)
              w2
              (await_capacity-Ends kubeconfig (vendor_wiring o.vendor).resource o.gpus_per_worker
                o.workers w2 less))
            (λ v w3.
              >>=-Ends (when host o.with_monitoring _) _ w3
                (when-Ends o.with_monitoring _ w3 (install_monitoring-Ends kubeconfig o.vendor w3))
                (λ z w4. (_, refl)))))

  -- A create returns, with an error or without: under the timeouts of its two waits the fuel is never
  -- used up, whatever the cluster answers.
  pub run_create-Ends : (o : CreateOpts) (w : W) → Ends (run_create host o) w
  unfolding run_create
  run_create-Ends o w =
      >>=-Ends (lift (λ (e : CliError). e) (validate_vendor o.vendor)) _ w (_, refl)
        (λ u w1.
          >>=-Ends (lift render_failed (render (render_options o))) _ w1 (_, refl)
            (λ raw w2.
              >>=-Ends (call cluster_failed (create host.kind (cluster_name o) raw)) _ w2 (_, refl)
                (λ v w3.
                  >>=-Ends (call cluster_failed (kube_config host.kind (cluster_name o))) _ w3
                    (_, refl)
                    (λ kubeconfig w4.
                      >>=-Ends (within kube_failed (ensure qs host.connect kubeconfig _ _)) _ w4
                        (within-Ends kube_failed (ensure qs host.connect kubeconfig _ _) w4
                          (ensure-Ends kubeconfig _ _ w4))
                        (λ z w5.
                          >>=-Ends (call client_failed (new host.files kubeconfig _)) _ w5 (_, refl)
                            (λ c w6.
                              finally-Ends (closed host c) (with_client host o kubeconfig c) w6
                                (with_client-Ends o kubeconfig c w6)))))))
