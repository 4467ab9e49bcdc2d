-- ===== src/Rocm/Controller/Stages.antt =====
-- operators/fake-rocm-gpu-operator/pkg/controller/deviceconfig_controller.go: what each stage of a
-- Reconcile establishes, and what the later ones keep.
use sims.Prelude.{
  Option, none, some, Bool, true, false, if◌then◌else◌, ◌≡◌, refl, ◌∙◌, Bool-cases, inl, inr,
}
use sims.Prelude.Results.{ok}
use sims.Rocm.Controller.Objects.{
  DeviceConfig, Config, daemon_set, deployment, service, Key, same_key,
}
use sims.Rocm.Controller.Workloads.{
  key_of, build_device_plugin_ds, build_metrics_exporter_ds, build_metrics_exporter_service,
  build_status_updater_deployment, build_node_labeller_ds,
}
use sims.Rocm.Controller.Reconcile.{
  Client, enabled, apply, delete_if_exists, plugin_ds, exporter_ds, node_selector_of,
  reconcile_plugin, reconcile_exporter, deleted_exporter, with_ready, write_status, applied_service,
  applied_exporter, deleted_service, label_nodes, update_topology, after_plugin,
}
use sims.Rocm.Controller.Steps.{
  ClientLaws, rest_ok, Holds, Absent, Holds-kept, Keeps, apply-Keeps, delete-Keeps,
  with_ready-Keeps, and_then-Keeps, applied_first, deleted_first,
}

-- Whether a child is asked for: it is unless its setting says otherwise.
unfoldable pub asked : Option Bool → Bool
asked none = true
asked (some b) = b

enabled-asked : (o : Option Bool) → enabled o true ≡ asked o
unfolding enabled asked
enabled-asked none = refl
enabled-asked (some b) = refl

module _ {W : Type 0} (api : Client W) (cfg : Config) (laws : ClientLaws api) where
  open laws use {
    find, set_owner_keeps, applied, apply_frame, deleted, delete_missing, delete_frame,
    ds_status_frame, update_status_frame,
  }

  pub service-Keeps :
      (cr : DeviceConfig) (k : Key)
      → same_key (key_of cfg service "amd-device-metrics-exporter") k ≡ false
      → Keeps api cfg laws k (applied_service api cfg cr)
  unfolding build_metrics_exporter_service
  service-Keeps cr k s w =
      and_then-Keeps api cfg laws k (apply api cfg cr (build_metrics_exporter_service cfg) w)
        (λ _. with_ready api cfg "amd-device-metrics-exporter")
        (λ _. with_ready-Keeps api cfg laws "amd-device-metrics-exporter" k)
      ∙ apply-Keeps api cfg laws cr (build_metrics_exporter_service cfg) k s w

  pub deleted_service-Keeps :
      (k : Key)
      → same_key (key_of cfg service "amd-device-metrics-exporter") k ≡ false
      → Keeps api cfg laws k (deleted_service api cfg)
  deleted_service-Keeps k s w =
      and_then-Keeps api cfg laws {B = Bool} k
        (delete_if_exists api cfg (key_of cfg service "amd-device-metrics-exporter") w)
        (λ _ w'. (ok false, w')) (λ _ w'. refl)
      ∙ delete-Keeps api cfg laws (key_of cfg service "amd-device-metrics-exporter") k s w

  pub exporter-Keeps :
      (cr : DeviceConfig) (k : Key)
      → same_key (key_of cfg daemon_set "amd-device-metrics-exporter") k ≡ false
      → same_key (key_of cfg service "amd-device-metrics-exporter") k ≡ false
      → Keeps api cfg laws k (reconcile_exporter api cfg cr)
  unfolding reconcile_exporter build_metrics_exporter_ds
  exporter-Keeps cr k d s w = elim (Bool-cases (enabled cr.spec.metrics_exporter_enable true)) [
    | inl on ↦ rw on (
        and_then-Keeps api cfg laws k (apply api cfg cr (exporter_ds api cfg cr) w)
          (λ _. applied_service api cfg cr) (λ _. service-Keeps cr k s)
        ∙ apply-Keeps api cfg laws cr (exporter_ds api cfg cr) k d w)
    | inr off ↦ rw off (
        and_then-Keeps api cfg laws k
          (delete_if_exists api cfg (key_of cfg daemon_set "amd-device-metrics-exporter") w)
          (λ _. deleted_service api cfg) (λ _. deleted_service-Keeps k s)
        ∙ delete-Keeps api cfg laws (key_of cfg daemon_set "amd-device-metrics-exporter") k d w)
  ]

  abbrev pub PluginState : W → DeviceConfig → Type 0
  PluginState w cr =
      if asked cr.spec.device_plugin.enable
      then Holds api cfg laws w (plugin_ds api cfg cr)
      else Absent api cfg laws w daemon_set "amd-device-plugin"

  abbrev pub ExporterState : W → DeviceConfig → Type 0
  ExporterState w cr =
      if asked cr.spec.metrics_exporter_enable
      then Holds api cfg laws w (exporter_ds api cfg cr)
        × Holds api cfg laws w (build_metrics_exporter_service cfg)
      else Absent api cfg laws w daemon_set "amd-device-metrics-exporter"
        × Absent api cfg laws w service "amd-device-metrics-exporter"

  -- What a DeviceConfig asks for: each child that it enables, and none that it disables.
  abbrev pub Established : W → DeviceConfig → Type 0
  Established w cr =
      PluginState w cr
      × ExporterState w cr
      × Holds api cfg laws w (build_status_updater_deployment cfg)
      × Holds api cfg laws w (build_node_labeller_ds cfg (node_selector_of api cfg cr))

  pub plugin_established :
      (cr : DeviceConfig) (w : W) (b : Bool)
      → (reconcile_plugin api cfg cr w).0 ≡ ok b
      → PluginState (reconcile_plugin api cfg cr w).1 cr
  unfolding reconcile_plugin build_device_plugin_ds
  plugin_established cr w b h = elim (Bool-cases (asked cr.spec.device_plugin.enable)) [
    | inl on ↦
        rw (enabled-asked cr.spec.device_plugin.enable, on)
          (applied_first api cfg laws cr (plugin_ds api cfg cr) w
            (λ _. with_ready api cfg "amd-device-plugin") b
            (λ _. with_ready-Keeps api cfg laws "amd-device-plugin" _)
            (rw (enabled-asked cr.spec.device_plugin.enable, on) at h))
    | inr off ↦
        rw (enabled-asked cr.spec.device_plugin.enable, off)
          (deleted_first api cfg laws daemon_set "amd-device-plugin" w (λ _ w'. (ok false, w')) b
            (λ _ w'. refl) (rw (enabled-asked cr.spec.device_plugin.enable, off) at h))
  ]

  pub exporter_established :
      (cr : DeviceConfig) (w : W) (b : Bool)
      → (reconcile_exporter api cfg cr w).0 ≡ ok b
      → ExporterState (reconcile_exporter api cfg cr w).1 cr
  unfolding reconcile_exporter build_metrics_exporter_ds build_metrics_exporter_service
  exporter_established cr w b h = elim (Bool-cases (asked cr.spec.metrics_exporter_enable)) [
    | inl on ↦
        let h' : (applied_exporter api cfg cr w).0 ≡ ok b =
          rw (enabled-asked cr.spec.metrics_exporter_enable, on) at h in
        rw (enabled-asked cr.spec.metrics_exporter_enable, on)
          (
            applied_first api cfg laws cr (exporter_ds api cfg cr) w
                (λ _. applied_service api cfg cr) b (λ _. service-Keeps cr _ refl) h',
            rest_ok (λ w'. Holds api cfg laws w' (build_metrics_exporter_service cfg))
                (apply api cfg cr (exporter_ds api cfg cr) w) (λ _. applied_service api cfg cr)
                (λ _ w'.
                  applied_first api cfg laws cr (build_metrics_exporter_service cfg) w'
                    (λ _. with_ready api cfg "amd-device-metrics-exporter") b
                    (λ _. with_ready-Keeps api cfg laws "amd-device-metrics-exporter" _))
                h',
          )
    | inr off ↦
        let h' : (deleted_exporter api cfg w).0 ≡ ok b =
          rw (enabled-asked cr.spec.metrics_exporter_enable, off) at h in
        rw (enabled-asked cr.spec.metrics_exporter_enable, off)
          (
            deleted_first api cfg laws daemon_set "amd-device-metrics-exporter" w
                (λ _. deleted_service api cfg) b (λ _. deleted_service-Keeps _ refl) h',
            rest_ok (λ w'. Absent api cfg laws w' service "amd-device-metrics-exporter")
                (delete_if_exists api cfg (key_of cfg daemon_set "amd-device-metrics-exporter") w)
                (λ _. deleted_service api cfg)
                (λ _ w'.
                  deleted_first api cfg laws service "amd-device-metrics-exporter" w'
                    (λ _ w''. (ok false, w'')) b (λ _ w''. refl))
                h',
          )
  ]

  pub write_status-Keeps :
      (cr : DeviceConfig) (p e : Bool) (k : Key)
      → Keeps api cfg laws k (write_status api cfg cr p e)
  write_status-Keeps cr p e k w = update_status_frame _ w k

  pub label_nodes-Keeps :
      (cr : DeviceConfig) (p e : Bool) (k : Key)
      → same_key (key_of cfg daemon_set "amd-node-labeller") k ≡ false
      → Keeps api cfg laws k (label_nodes api cfg cr p e)
  unfolding build_node_labeller_ds
  label_nodes-Keeps cr p e k d w =
      and_then-Keeps api cfg laws k
        (apply api cfg cr (build_node_labeller_ds cfg (node_selector_of api cfg cr)) w)
        (λ _. write_status api cfg cr p e) (λ _. write_status-Keeps cr p e k)
      ∙ apply-Keeps api cfg laws cr (build_node_labeller_ds cfg (node_selector_of api cfg cr)) k d w

  pub update_topology-Keeps :
      (cr : DeviceConfig) (p e : Bool) (k : Key)
      → same_key (key_of cfg deployment "amd-status-updater") k ≡ false
      → same_key (key_of cfg daemon_set "amd-node-labeller") k ≡ false
      → Keeps api cfg laws k (update_topology api cfg cr p e)
  unfolding build_status_updater_deployment
  update_topology-Keeps cr p e k s d w =
      and_then-Keeps api cfg laws k (apply api cfg cr (build_status_updater_deployment cfg) w)
        (λ _. label_nodes api cfg cr p e) (λ _. label_nodes-Keeps cr p e k d)
      ∙ apply-Keeps api cfg laws cr (build_status_updater_deployment cfg) k s w

  pub after_plugin-Keeps :
      (cr : DeviceConfig) (p : Bool)
      → Keeps api cfg laws (key_of cfg daemon_set "amd-device-plugin") (after_plugin api cfg cr p)
  after_plugin-Keeps cr p w =
      and_then-Keeps api cfg laws _ (reconcile_exporter api cfg cr w)
        (λ e. update_topology api cfg cr p e) (λ e. update_topology-Keeps cr p e _ refl refl)
      ∙ exporter-Keeps cr _ refl refl w

  pub labeller_established :
      (cr : DeviceConfig) (p e : Bool) (w : W)
      → (label_nodes api cfg cr p e w).0 ≡ ok tt
      → Holds api cfg laws
          (label_nodes api cfg cr p e w).1
          (build_node_labeller_ds cfg (node_selector_of api cfg cr))
  labeller_established cr p e w h =
      applied_first api cfg laws cr (build_node_labeller_ds cfg (node_selector_of api cfg cr)) w
        (λ _. write_status api cfg cr p e) tt (λ _. write_status-Keeps cr p e _) h

  pub updater_established :
      (cr : DeviceConfig) (p e : Bool) (w : W)
      → (update_topology api cfg cr p e w).0 ≡ ok tt
      → Holds api cfg laws
          (update_topology api cfg cr p e w).1
          (build_status_updater_deployment cfg)
  unfolding build_status_updater_deployment
  updater_established cr p e w h =
      applied_first api cfg laws cr (build_status_updater_deployment cfg) w
        (λ _. label_nodes api cfg cr p e) tt (λ _. label_nodes-Keeps cr p e _ refl) h

  pub PluginState-kept :
      (cr : DeviceConfig) (w w' : W)
      → find w' (key_of cfg daemon_set "amd-device-plugin")
        ≡ find w (key_of cfg daemon_set "amd-device-plugin")
      → PluginState w cr
      → PluginState w' cr
  unfolding build_device_plugin_ds
  PluginState-kept cr w w' kept h = elim (Bool-cases (asked cr.spec.device_plugin.enable)) [
    | inl on ↦ rw on (Holds-kept api cfg laws (plugin_ds api cfg cr) w w' kept (rw on at h))
    | inr off ↦ rw off (kept ∙ rw off at h)
  ]

  pub ExporterState-kept :
      (cr : DeviceConfig) (w w' : W)
      → find w' (key_of cfg daemon_set "amd-device-metrics-exporter")
        ≡ find w (key_of cfg daemon_set "amd-device-metrics-exporter")
      → find w' (key_of cfg service "amd-device-metrics-exporter")
        ≡ find w (key_of cfg service "amd-device-metrics-exporter")
      → ExporterState w cr
      → ExporterState w' cr
  unfolding build_metrics_exporter_ds build_metrics_exporter_service
  ExporterState-kept cr w w' kept kept' h =
      elim (Bool-cases (asked cr.spec.metrics_exporter_enable)) [
        | inl on ↦
            let (ds, svc) : Holds api cfg laws w (exporter_ds api cfg cr)
                × Holds api cfg laws w (build_metrics_exporter_service cfg) =
              rw on at h in
            rw on (
              Holds-kept api cfg laws (exporter_ds api cfg cr) w w' kept ds,
              Holds-kept api cfg laws (build_metrics_exporter_service cfg) w w' kept' svc,
            )
        | inr off ↦
            let (ds, svc) : Absent api cfg laws w daemon_set "amd-device-metrics-exporter"
                × Absent api cfg laws w service "amd-device-metrics-exporter" =
              rw off at h in
            rw off (kept ∙ ds, kept' ∙ svc)
      ]
