-- ===== src/Kube.antt =====
-- pkg/kube: what the command line asks of a cluster.
pub mod Namespace
pub mod Snapshot
pub mod Wait
pub mod Clients
pub mod Timed
pub mod Kept
