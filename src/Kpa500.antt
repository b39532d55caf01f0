-- ===== src/Kpa500.antt =====
-- crates/elecraft-kpa500/src/lib.rs: the driver of the KPA500 amplifier.
pub mod Command
pub mod Band
pub mod Follow
pub mod Response
pub mod Changes
pub mod Control
pub mod Send
pub mod Poll
