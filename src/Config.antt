-- ===== src/Config.antt =====
-- components/config_manager: where the configuration comes from and which streams an instance takes.
pub mod State
pub mod Scaling
pub mod Json
pub mod Parse
pub mod Selection
pub mod Merge
pub mod Reload
pub mod Atomic
pub mod Notify
pub mod Environment
pub mod Transfer
pub mod Whitelist
mod EnvironmentTests
pub mod Tests
