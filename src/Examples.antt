-- ===== src/Examples.antt =====
-- The theorems at concrete inputs.
mod Floats
mod Configs
mod Gpus
mod Assignments
mod Codec
mod Topologies
mod Clusters
mod Subcommands
mod Sidecar
mod Machine
mod Commands
mod Making
mod Dashboards
