-- ===== src/Rocm/DevicePlugin.antt =====
-- operators/fake-rocm-gpu-operator/pkg/deviceplugin: the plugin's server and the annotator beside it.
pub mod Server
pub mod Lifecycle
pub mod Stopped
pub mod Watch
pub mod Devices
pub mod Annotate
pub mod Collected
pub mod Annotated
pub mod Rounds
