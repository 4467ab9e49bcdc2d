-- ===== src/Rocm/Controller/Objects.antt =====
-- operators/fake-rocm-gpu-operator/api/v1alpha1/deviceconfig_types.go, and the fields of the Kubernetes
-- objects that pkg/controller/deviceconfig_controller.go sets.
use sims.Prelude.{ℕ, String, Bool, true, false, ◌&&◌, List, Option, ◌==◌}
use sims.Prelude.Int.{ℤ}
use sims.Prelude.Maps.{Map}

pub record ComputePartitionSpec : Type 0 where
  pub mode : String
  pub count : ℤ

-- An optional Boolean is a pointer in the source: `none` is nil.
pub record DevicePluginSpec : Type 0 where
  pub enable : Option Bool
  pub image_pull_policy : String

pub record DeviceConfigSpec : Type 0 where
  pub driver_enable : Option Bool
  pub device_plugin : DevicePluginSpec
  pub metrics_exporter_enable : Option Bool
  pub node_selector : Map String
  pub init_container_image : String
  pub compute_partition : ComputePartitionSpec

-- The conditions are named here by their types.
pub record DeviceConfigStatus : Type 0 where
  pub device_plugin_ready : Bool
  pub metrics_exporter_ready : Bool
  pub conditions : List String

pub record DeviceConfig : Type 0 where
  pub name : String
  pub spec : DeviceConfigSpec
  pub status : DeviceConfigStatus

-- The reconciler's own configuration.
pub record Config : Type 0 where
  pub image : String
  pub image_pull_policy : String
  pub gpus_per_node : ℤ
  pub product_name : String
  pub gpu_memory_bytes : ℤ
  pub resource_name : String
  pub default_node_selector : Map String
  pub default_utilization : String
  pub namespace : String

pub record SecurityContext : Type 0 where
  pub privileged : Option Bool
  pub run_as_user : Option ℕ
  pub run_as_group : Option ℕ
  pub run_as_non_root : Option Bool
  pub allow_privilege_escalation : Option Bool
  pub read_only_root_filesystem : Option Bool
  pub drop_capabilities : List String

pub record VolumeMount : Type 0 where
  pub name : String
  pub mount_path : String
  pub read_only : Bool

-- `env` gives the field path of each variable, `ports` the number of each named TCP port.
pub record ContainerSpec : Type 0 where
  pub name : String
  pub image : String
  pub image_pull_policy : String
  pub args : List String
  pub env : Map String
  pub ports : Map ℕ
  pub security_context : SecurityContext
  pub volume_mounts : List VolumeMount

-- `volumes` gives the host directory of each volume.
pub record PodSpec : Type 0 where
  pub labels : Map String
  pub service_account_name : String
  pub node_selector : Map String
  pub priority_class_name : String
  pub containers : List ContainerSpec
  pub volumes : Map String

-- A DaemonSet has neither replicas nor a strategy.
pub record WorkloadSpec : Type 0 where
  pub replicas : Option ℕ
  pub strategy : String
  pub selector : Map String
  pub template : PodSpec

pub record ServiceSpec : Type 0 where
  pub cluster_ip : String
  pub service_type : String
  pub selector : Map String
  pub port_name : String
  pub port : ℕ
  pub target_port : String

pub data Kind : Type 0 where
  daemon_set : Kind
  deployment : Kind
  service : Kind

pub data ObjectSpec : Type 0 where
  workload : WorkloadSpec → ObjectSpec
  service_spec : ServiceSpec → ObjectSpec

pub record Key : Type 0 where
  pub kind : Kind
  pub name : String
  pub namespace : String

pub record Object : Type 0 where
  pub key : Key
  pub labels : Map String
  pub spec : ObjectSpec
  pub owner : Option String

abbrev pub same_kind : Kind → Kind → Bool
same_kind daemon_set daemon_set = true
same_kind deployment deployment = true
same_kind service service = true
same_kind _ _ = false

-- Whether two keys name one object.
abbrev pub same_key : Key → Key → Bool
same_key a b = same_kind a.kind b.kind && (a.name == b.name && (a.namespace == b.namespace))
