-- ===== src/Helm.antt =====
-- pkg/helm: the client that sims installs charts with.
pub mod Client
pub mod Actions
pub mod Kept
pub mod Frames
