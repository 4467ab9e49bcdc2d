-- ===== src/Rocm.antt =====
-- operators/fake-rocm-gpu-operator: the simulated AMD GPUs, from the device plugin of a node to the
-- metrics that it exports.
pub mod Annotations
pub mod Simulate
pub mod Partitions
pub mod Loaded
pub mod DevicePlugin
pub mod Topology
pub mod StatusUpdater
pub mod Metrics
pub mod Exporter
pub mod Utilization
pub mod SmiMock
pub mod Controller
pub mod NodeSelector
pub mod NodeLabeller
pub mod Subcommands
