-- ===== src/Rocm/Controller.antt =====
-- operators/fake-rocm-gpu-operator/pkg/controller and api/v1alpha1: the reconciler of a DeviceConfig.
pub mod Objects
pub mod Workloads
pub mod Reconcile
pub mod Flags
pub mod Steps
pub mod Stages
pub mod Converges
