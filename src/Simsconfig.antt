-- ===== src/Simsconfig.antt =====
-- pkg/simsconfig: the SimsConfig file, its checks and its defaults.
pub mod Types
pub mod Families
pub mod Load
pub mod WellFormed
pub mod Utilization
pub mod Defaults
