-- ===== src/Utils.antt =====
-- The package sensor/internal/utils.
pub mod ColonFile
pub mod Users
pub mod Cached
pub mod Process
pub mod FileInfo
pub mod RuntimeNames
pub mod ContainerRuntime
pub mod Service
pub mod HttpClient
