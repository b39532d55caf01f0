-- ===== src/Bridge.antt =====
-- crates/bridge-core/src/state.rs: the state that the drivers and the emulators share.
pub mod Band
pub mod Lifecycle
pub mod Stats
pub mod Latency
pub mod Capability
pub mod Float
pub mod Serial
pub mod Amp
pub mod Radio
pub mod Injection
pub mod Desired
pub mod State
pub mod Tuner
