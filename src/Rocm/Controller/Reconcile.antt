-- ===== src/Rocm/Controller/Reconcile.antt =====
-- operators/fake-rocm-gpu-operator/pkg/controller/deviceconfig_controller.go: Reconcile, and the calls
-- that apply and delete objects. The client of the API server is a parameter on the world `W`.
use sims.Prelude.{String, Bool, true, false, ◌&&◌, [], ◌∷◌, Option, none, some, if◌then◌else◌}
use sims.Prelude.Int.{ℤ, pos, ltb_ℤ, leb_ℤ}
use sims.Prelude.Maps.{Map}
use sims.Prelude.Results.{Result, ok, err, Call, wrap}
use sims.K8s.{ApiError, not_found}
use sims.Rocm.Controller.Objects.{
  DeviceConfig, Config, daemon_set, service, ObjectSpec, service_spec, Key, Object,
}
use sims.Rocm.Controller.Workloads.{
  key_of, build_device_plugin_ds, build_metrics_exporter_ds, build_metrics_exporter_service,
  build_status_updater_deployment, build_node_labeller_ds,
}

-- `create_or_update` is controllerutil.CreateOrUpdate, which is given the wanted object and the
-- function that changes the one it finds; `set_owner` is controllerutil.SetControllerReference;
-- `ds_status` gives NumberReady and DesiredNumberScheduled of a DaemonSet.
pub record Client (W : Type 0) : Type 0 where
  pub get_config : String → Call W (Result ApiError DeviceConfig)
  pub create_or_update :
      Object → (Object → Result ApiError Object) → Call W (Result ApiError (Unit {0}))
  pub delete : Key → Call W (Result ApiError (Unit {0}))
  pub ds_status : String → String → Call W (Result ApiError (ℤ × ℤ))
  pub update_status : DeviceConfig → Call W (Result ApiError (Unit {0}))
  pub set_owner : DeviceConfig → Object → Result ApiError Object

pub data ReconcileError : Type 0 where
  get_failed : ApiError → ReconcileError
  apply_failed : String → ApiError → ReconcileError
  delete_failed : ApiError → ReconcileError

-- `if err != nil { return err }` between two calls.
abbrev pub and_then :
    {W E A B : Type 0} → Result E A × W → (A → Call W (Result E B)) → Result E B × W
and_then (ok a, w) f = f a w
and_then (err e, w) f = (err e, w)

unfoldable pub enabled : Option Bool → Bool → Bool
enabled none default = default
enabled (some b) default = b

-- The spec that an existing object gets: a service keeps its cluster IP.
abbrev pub updated_spec : ObjectSpec → ObjectSpec → ObjectSpec
updated_spec (service_spec old) (service_spec new) =
    service_spec (record new { cluster_ip = old.cluster_ip })
updated_spec _ new = new

module _ {W : Type 0} (api : Client W) (cfg : Config) where
  -- applyDaemonSet, applyDeployment and applyService differ in `updated_spec` alone.
  unfoldable pub apply : DeviceConfig → Object → Call W (Result ReconcileError (Unit {0}))
  apply cr want w =
      let (r, w') =
        api.create_or_update want
          (λ current.
            api.set_owner cr
              (record current { spec = updated_spec current.spec want.spec; labels = want.labels }))
          w in
      (wrap (apply_failed want.key.name) r, w')

  abbrev pub ignore_not_found : Result ApiError (Unit {0}) → Result ReconcileError (Unit {0})
  ignore_not_found (ok _) = ok tt
  ignore_not_found (err not_found) = ok tt
  ignore_not_found (err ApiError.already_exists) = err (delete_failed ApiError.already_exists)
  ignore_not_found (err (ApiError.other t)) = err (delete_failed (ApiError.other t))

  unfoldable pub delete_if_exists : Key → Call W (Result ReconcileError (Unit {0}))
  delete_if_exists key w = let (r, w') = api.delete key w in (ignore_not_found r, w')

  -- NumberReady > 0 && NumberReady == DesiredNumberScheduled
  abbrev pub all_ready : Result ApiError (ℤ × ℤ) → Bool
  all_ready (err e) = false
  all_ready (ok (ready, desired)) =
      ltb_ℤ (pos 0) ready && (leb_ℤ ready desired && leb_ℤ desired ready)

  unfoldable pub ds_ready : String → Call W Bool
  ds_ready name w = let (r, w') = api.ds_status cfg.namespace name w in (all_ready r, w')

  abbrev pub node_selector_of : DeviceConfig → Map String
  node_selector_of cr = elim cr.spec.node_selector [
    | [] ↦ cfg.default_node_selector
    | ◌∷◌ x r ↦ x ∷ r
  ]

  -- A DaemonSet's readiness, after it was applied.
  abbrev pub with_ready : String → Call W (Result ReconcileError Bool)
  with_ready name w = let (b, w') = ds_ready name w in (ok b, w')

  abbrev pub plugin_ds : DeviceConfig → Object
  plugin_ds cr =
      build_device_plugin_ds cfg cr (node_selector_of cr) cr.spec.device_plugin.image_pull_policy

  abbrev pub exporter_ds : DeviceConfig → Object
  exporter_ds cr = build_metrics_exporter_ds cfg cr (node_selector_of cr)

  abbrev pub applied_plugin : DeviceConfig → Call W (Result ReconcileError Bool)
  applied_plugin cr w = and_then (apply cr (plugin_ds cr) w) (λ _. with_ready "amd-device-plugin")

  abbrev pub deleted_plugin : Call W (Result ReconcileError Bool)
  deleted_plugin w =
      and_then (delete_if_exists (key_of cfg daemon_set "amd-device-plugin") w)
        (λ _ w'. (ok false, w'))

  unfoldable pub reconcile_plugin : DeviceConfig → Call W (Result ReconcileError Bool)
  unfolding apply delete_if_exists ds_ready
  reconcile_plugin cr w =
      if enabled cr.spec.device_plugin.enable true then applied_plugin cr w else deleted_plugin w

  abbrev pub applied_service : DeviceConfig → Call W (Result ReconcileError Bool)
  applied_service cr w =
      and_then (apply cr (build_metrics_exporter_service cfg) w)
        (λ _. with_ready "amd-device-metrics-exporter")

  abbrev pub applied_exporter : DeviceConfig → Call W (Result ReconcileError Bool)
  applied_exporter cr w = and_then (apply cr (exporter_ds cr) w) (λ _. applied_service cr)

  abbrev pub deleted_service : Call W (Result ReconcileError Bool)
  deleted_service w =
      and_then (delete_if_exists (key_of cfg service "amd-device-metrics-exporter") w)
        (λ _ w'. (ok false, w'))

  abbrev pub deleted_exporter : Call W (Result ReconcileError Bool)
  deleted_exporter w =
      and_then (delete_if_exists (key_of cfg daemon_set "amd-device-metrics-exporter") w)
        (λ _. deleted_service)

  unfoldable pub reconcile_exporter : DeviceConfig → Call W (Result ReconcileError Bool)
  unfolding apply delete_if_exists ds_ready
  reconcile_exporter cr w =
      if enabled cr.spec.metrics_exporter_enable true
      then applied_exporter cr w
      else deleted_exporter w

  -- The whole status is replaced, and its conditions with it; an error is logged and ignored.
  abbrev pub write_status : DeviceConfig → Bool → Bool → Call W (Result ReconcileError (Unit {0}))
  write_status cr plugin exporter w =
      let (r, w') =
        api.update_status
          (record cr {
            status = record {
              device_plugin_ready = plugin;
              metrics_exporter_ready = exporter;
              conditions = [];
            };
          })
          w in
      (ok tt, w')

  abbrev pub label_nodes : DeviceConfig → Bool → Bool → Call W (Result ReconcileError (Unit {0}))
  label_nodes cr plugin exporter w =
      and_then (apply cr (build_node_labeller_ds cfg (node_selector_of cr)) w)
        (λ _. write_status cr plugin exporter)

  abbrev pub update_topology :
      DeviceConfig → Bool → Bool → Call W (Result ReconcileError (Unit {0}))
  update_topology cr plugin exporter w =
      and_then (apply cr (build_status_updater_deployment cfg) w)
        (λ _. label_nodes cr plugin exporter)

  abbrev pub after_plugin : DeviceConfig → Bool → Call W (Result ReconcileError (Unit {0}))
  after_plugin cr plugin w =
      and_then (reconcile_exporter cr w) (λ exporter. update_topology cr plugin exporter)

  unfoldable pub reconcile_config : DeviceConfig → Call W (Result ReconcileError (Unit {0}))
  unfolding reconcile_plugin reconcile_exporter
  reconcile_config cr w = and_then (reconcile_plugin cr w) (λ plugin. after_plugin cr plugin)

  -- A DeviceConfig that is gone needs nothing: its children go with it.
  abbrev pub found : Result ApiError DeviceConfig × W → Result ReconcileError (Unit {0}) × W
  found (err not_found, w) = (ok tt, w)
  found (err ApiError.already_exists, w) = (err (get_failed ApiError.already_exists), w)
  found (err (ApiError.other t), w) = (err (get_failed (ApiError.other t)), w)
  found (ok cr, w) = reconcile_config cr w

  unfoldable pub reconcile : String → Call W (Result ReconcileError (Unit {0}))
  unfolding reconcile_config
  reconcile name w = found (api.get_config name w)
