-- ===== src/Config.antt =====
-- crates/config/src/lib.rs: the configuration file.
pub mod Device
pub mod Operational
pub mod Checks
pub mod Emulators
pub mod FlexInjection
pub mod Whole
pub mod Checked
