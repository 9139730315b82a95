-- ===== src/Sensor.antt =====
-- The package sensor: what each endpoint tells of the node.
pub mod Redaction
pub mod Verbose
pub mod Kubelet
pub mod Cni
pub mod EncryptionConfig
pub mod ControlPlaneInfo
pub mod ControlPlane
pub mod OsRelease
pub mod Network
pub mod CloudProvider
pub mod KernelVariables
pub mod Samples
mod Tests
