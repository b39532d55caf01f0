-- ===== src/Kat500.antt =====
-- crates/elecraft-kat500/src/lib.rs: the driver of the KAT500 tuner.
pub mod Command
pub mod Frequency
pub mod Response
pub mod Send
pub mod Poll
pub mod Echo
pub mod Follow
pub mod Tune
pub mod Desired
pub mod Direct
