-- ===== src/Rocm/Subcommands.antt =====
-- operators/fake-rocm-gpu-operator/cmd/fake-rocm-gpu-operator and internal: the subcommands of the
-- operator's binary, from their arguments to what they start.
pub mod Dispatch
pub mod Plugin
pub mod Exporter
pub mod Updater
pub mod Controller
pub mod Labeller
pub mod Started
pub mod Agreed
