-- ===== src/Rocm/Controller/Workloads.antt =====
-- operators/fake-rocm-gpu-operator/pkg/controller/deviceconfig_controller.go: the builders of the child
-- workloads.
use sims.Prelude.{String, true, false, List, [], ◌∷◌, none, some, if◌then◌else◌, ◌==◌}
use sims.Prelude.Int.{ℤ, pos, ltb_ℤ, ◌*ℤ◌, wrap32}
use sims.Prelude.Maps.{Map}
use sims.Text.{append, is_empty}
use sims.Text.Decimal.{itoa_ℤ}
use sims.Rocm.Controller.Objects.{
  ComputePartitionSpec, DeviceConfig, Config, SecurityContext, PodSpec, Kind, daemon_set,
  deployment, service, workload, service_spec, Key, Object,
}

-- "cpx" keeps its count, which is at least 1; every other mode is "spx" with the count 1.
unfoldable pub normalize_partition : ComputePartitionSpec → String × ℤ
normalize_partition p =
    if p.mode == "cpx"
    then (if ltb_ℤ p.count (pos 1) then ("cpx", pos 1) else ("cpx", p.count))
    else ("spx", pos 1)

unfoldable pub partition_multiplier : ComputePartitionSpec → ℤ
unfolding normalize_partition
partition_multiplier p = (normalize_partition p).1

abbrev pub common_labels : String → Map String
common_labels app =
    ("app", app)
    ∷ ("app.kubernetes.io/name", "fake-rocm-gpu-operator")
    ∷ ("app.kubernetes.io/managed-by", "deviceconfig-controller")
    ∷ ("app.kubernetes.io/part-of", "sims")
    ∷ []

abbrev pub key_of : Config → Kind → String → Key
key_of cfg kind name = record { kind = kind; name = name; namespace = cfg.namespace }

abbrev pub no_privileges : SecurityContext
no_privileges = record {
  privileged = none;
  run_as_user = some 65532;
  run_as_group = some 65532;
  run_as_non_root = some true;
  allow_privilege_escalation = some false;
  read_only_root_filesystem = some true;
  drop_capabilities = "ALL" ∷ [];
}

abbrev pub node_name_env : Map String
node_name_env = ("NODE_NAME", "spec.nodeName") ∷ []

-- A DaemonSet of one pod template, which selects its pods by the label "app".
abbrev pub daemon_set_of : Config → String → PodSpec → Object
daemon_set_of cfg app template = record {
  key = key_of cfg daemon_set app;
  labels = common_labels app;
  spec = workload (record {
    replicas = none;
    strategy = "";
    selector = ("app", app) ∷ [];
    template = template;
  });
  owner = none;
}

-- The product of two int32 is an int32.
unfoldable pub device_plugin_args : Config → DeviceConfig → List String
unfolding partition_multiplier
device_plugin_args cfg cr =
    "device-plugin"
    ∷ append "--gpus-per-node="
        (itoa_ℤ (wrap32 (cfg.gpus_per_node *ℤ partition_multiplier cr.spec.compute_partition)))
    ∷ append "--resource-name=" cfg.resource_name
    ∷ "--kubelet-socket-dir=/var/lib/kubelet/device-plugins"
    ∷ "--pod-resources-socket=/var/lib/kubelet/pod-resources/kubelet.sock"
    ∷ []

unfoldable pub build_device_plugin_ds : Config → DeviceConfig → Map String → String → Object
unfolding device_plugin_args
build_device_plugin_ds cfg cr node_selector pull_policy =
    daemon_set_of cfg "amd-device-plugin" (record {
      labels = common_labels "amd-device-plugin";
      service_account_name = "amd-device-plugin";
      node_selector = node_selector;
      priority_class_name = "system-node-critical";
      containers =
          record {
            name = "device-plugin";
            image = cfg.image;
            image_pull_policy = if is_empty pull_policy then cfg.image_pull_policy else pull_policy;
            args = device_plugin_args cfg cr;
            env = node_name_env;
            ports = [];
            security_context = record {
              privileged = some true;
              run_as_user = some 0;
              run_as_group = some 0;
              run_as_non_root = none;
              allow_privilege_escalation = none;
              read_only_root_filesystem = none;
              drop_capabilities = [];
            };
            volume_mounts =
                record {
                  name = "kubelet-device-plugins";
                  mount_path = "/var/lib/kubelet/device-plugins";
                  read_only = false;
                }
                ∷ record {
                  name = "pod-resources";
                  mount_path = "/var/lib/kubelet/pod-resources";
                  read_only = true;
                }
                ∷ [];
          }
          ∷ [];
      volumes =
          ("kubelet-device-plugins", "/var/lib/kubelet/device-plugins")
          ∷ ("pod-resources", "/var/lib/kubelet/pod-resources")
          ∷ [];
    })

unfoldable pub metrics_exporter_args : Config → DeviceConfig → List String
unfolding normalize_partition
metrics_exporter_args cfg cr =
    let (mode, count) = normalize_partition cr.spec.compute_partition in
    "metrics-exporter"
    ∷ "--listen=:5000"
    ∷ append "--gpus-per-node=" (itoa_ℤ cfg.gpus_per_node)
    ∷ append "--product-name=" cfg.product_name
    ∷ append "--memory-bytes=" (itoa_ℤ cfg.gpu_memory_bytes)
    ∷ append "--topology-namespace=" cfg.namespace
    ∷ append "--partition-mode=" mode
    ∷ append "--partition-count=" (itoa_ℤ count)
    ∷ append "--default-utilization=" cfg.default_utilization
    ∷ []

unfoldable pub build_metrics_exporter_ds : Config → DeviceConfig → Map String → Object
unfolding metrics_exporter_args
build_metrics_exporter_ds cfg cr node_selector =
    daemon_set_of cfg "amd-device-metrics-exporter" (record {
      labels = common_labels "amd-device-metrics-exporter";
      service_account_name = "amd-device-metrics-exporter";
      node_selector = node_selector;
      priority_class_name = "";
      containers =
          record {
            name = "metrics-exporter";
            image = cfg.image;
            image_pull_policy = cfg.image_pull_policy;
            args = metrics_exporter_args cfg cr;
            env = node_name_env;
            ports = ("gpu-metrics", 5000) ∷ [];
            security_context = no_privileges;
            volume_mounts = [];
          }
          ∷ [];
      volumes = [];
    })

unfoldable pub build_metrics_exporter_service : Config → Object
build_metrics_exporter_service cfg = record {
  key = key_of cfg service "amd-device-metrics-exporter";
  labels = common_labels "amd-device-metrics-exporter";
  spec = service_spec (record {
    cluster_ip = "";
    service_type = "ClusterIP";
    selector = ("app", "amd-device-metrics-exporter") ∷ [];
    port_name = "gpu-metrics";
    port = 5000;
    target_port = "gpu-metrics";
  });
  owner = none;
}

-- It has no node selector.
unfoldable pub build_status_updater_deployment : Config → Object
build_status_updater_deployment cfg = record {
  key = key_of cfg deployment "amd-status-updater";
  labels = common_labels "amd-status-updater";
  spec = workload (record {
    replicas = some 1;
    strategy = "Recreate";
    selector = ("app", "amd-status-updater") ∷ [];
    template = record {
      labels = common_labels "amd-status-updater";
      service_account_name = "amd-status-updater";
      node_selector = [];
      priority_class_name = "";
      containers =
          record {
            name = "status-updater";
            image = cfg.image;
            image_pull_policy = cfg.image_pull_policy;
            args =
                "status-updater"
                ∷ append "--topology-namespace=" cfg.namespace
                ∷ "--reconcile-interval=5s"
                ∷ [];
            env = [];
            ports = [];
            security_context = no_privileges;
            volume_mounts = [];
          }
          ∷ [];
      volumes = [];
    };
  });
  owner = none;
}

unfoldable pub build_node_labeller_ds : Config → Map String → Object
build_node_labeller_ds cfg node_selector = daemon_set_of cfg "amd-node-labeller" (record {
  labels = common_labels "amd-node-labeller";
  service_account_name = "amd-node-labeller";
  node_selector = node_selector;
  priority_class_name = "";
  containers =
      record {
        name = "node-labeller";
        image = cfg.image;
        image_pull_policy = cfg.image_pull_policy;
        args = "node-labeller" ∷ append "--product-name=" cfg.product_name ∷ [];
        env = node_name_env;
        ports = [];
        security_context = no_privileges;
        volume_mounts = [];
      }
      ∷ [];
  volumes = [];
})
