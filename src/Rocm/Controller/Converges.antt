-- ===== src/Rocm/Controller/Converges.antt =====
-- operators/fake-rocm-gpu-operator/pkg/controller/deviceconfig_controller.go: what a Reconcile that
-- returns no error has established.
use sims.Prelude.{String, Bool, ◌≡◌, refl, ap}
use sims.Prelude.Results.{Result, ok}
use sims.K8s.{ApiError}
use sims.Rocm.Controller.Objects.{DeviceConfig, Config}
use sims.Rocm.Controller.Workloads.{build_status_updater_deployment, build_node_labeller_ds}
use sims.Rocm.Controller.Reconcile.{
  Client, apply, node_selector_of, reconcile_plugin, reconcile_exporter, reconcile_config,
  reconcile, label_nodes, update_topology, after_plugin, found,
}
use sims.Rocm.Controller.Steps.{ClientLaws, first_ok, rest_ok, Holds}
use sims.Rocm.Controller.Stages.{
  PluginState, ExporterState, Established, plugin_established, exporter_established,
  update_topology-Keeps, after_plugin-Keeps, labeller_established, updater_established,
  PluginState-kept, ExporterState-kept,
}

module _ {W : Type 0} (api : Client W) (cfg : Config) (laws : ClientLaws api) where
  exporter_stays :
      (cr : DeviceConfig) (p : Bool) (w : W)
      → (after_plugin api cfg cr p w).0 ≡ ok tt
      → ExporterState api cfg laws (after_plugin api cfg cr p w).1 cr
  exporter_stays cr p w h =
      first_ok (λ w'. ExporterState api cfg laws w' cr) (reconcile_exporter api cfg cr w)
        (λ e. update_topology api cfg cr p e)
        (λ e done. exporter_established api cfg laws cr w e done)
        (λ e w' there.
          ExporterState-kept api cfg laws cr w' _
            (update_topology-Keeps api cfg laws cr p e _ refl refl w')
            (update_topology-Keeps api cfg laws cr p e _ refl refl w') there)
        h

  last_two :
      (cr : DeviceConfig) (p : Bool) (w : W)
      → (after_plugin api cfg cr p w).0 ≡ ok tt
      → Holds api cfg laws (after_plugin api cfg cr p w).1 (build_status_updater_deployment cfg)
        × Holds api cfg laws
            (after_plugin api cfg cr p w).1
            (build_node_labeller_ds cfg (node_selector_of api cfg cr))
  last_two cr p w h = (
    rest_ok (λ w'. Holds api cfg laws w' (build_status_updater_deployment cfg))
        (reconcile_exporter api cfg cr w) (λ e. update_topology api cfg cr p e)
        (λ e w'. updater_established api cfg laws cr p e w') h,
    rest_ok (λ w'. Holds api cfg laws w' (build_node_labeller_ds cfg (node_selector_of api cfg cr)))
        (reconcile_exporter api cfg cr w) (λ e. update_topology api cfg cr p e)
        (λ e w'.
          rest_ok
            (λ w''.
              Holds api cfg laws w'' (build_node_labeller_ds cfg (node_selector_of api cfg cr)))
            (apply api cfg cr (build_status_updater_deployment cfg) w')
            (λ _. label_nodes api cfg cr p e)
            (λ _ w''. labeller_established api cfg laws cr p e w''))
        h,
  )

  config-Established :
      (cr : DeviceConfig) (w : W)
      → (reconcile_config api cfg cr w).0 ≡ ok tt
      → Established api cfg laws (reconcile_config api cfg cr w).1 cr
  unfolding reconcile_config
  config-Established cr w h =
      let last =
        rest_ok
          (λ w'.
            Holds api cfg laws w' (build_status_updater_deployment cfg)
            × Holds api cfg laws w' (build_node_labeller_ds cfg (node_selector_of api cfg cr)))
          (reconcile_plugin api cfg cr w) (λ p. after_plugin api cfg cr p)
          (λ p w'. last_two cr p w') h in
      (
        first_ok (λ w'. PluginState api cfg laws w' cr) (reconcile_plugin api cfg cr w)
            (λ p. after_plugin api cfg cr p) (λ p done. plugin_established api cfg laws cr w p done)
            (λ p w' there.
              PluginState-kept api cfg laws cr w' _ (after_plugin-Keeps api cfg laws cr p w') there)
            h,
        rest_ok (λ w'. ExporterState api cfg laws w' cr) (reconcile_plugin api cfg cr w)
            (λ p. after_plugin api cfg cr p) (λ p w'. exporter_stays cr p w') h,
        last.0,
        last.1,
      )

  -- A reconcile of a DeviceConfig that returns no error has made the cluster what the DeviceConfig asks
  -- for: the server has each enabled child with the labels and the spec that the controller builds
  -- for it (a service may have a cluster IP), and none of the disabled children.
  pub reconcile_establishes :
      (name : String) (cr : DeviceConfig) (w : W)
      → (api.get_config name w).0 ≡ ok cr
      → (reconcile api cfg name w).0 ≡ ok tt
      → Established api cfg laws (reconcile api cfg name w).1 cr
  unfolding reconcile
  reconcile_establishes name cr w got h = rw as_config (config-Established cr _ (rw as_config at h))
    where
      as_config : reconcile api cfg name w ≡ reconcile_config api cfg cr (api.get_config name w).1
      as_config =
          ap (λ (r : Result ApiError DeviceConfig). found api cfg (r, (api.get_config name w).1))
            got
