-- ===== src/Dcgm.antt =====
-- operators/fake-dcgm-extras: the sidecar that shows the DCGM series of NVIDIA GPUs.
pub mod Registry
pub mod Cache
pub mod Sample
pub mod Run
pub mod Shown
pub mod Readings
