-- ===== src/Examples.antt =====
-- Runs of the code on concrete inputs, at which the theorems with hypotheses apply.
pub mod Policy
pub mod Lines
pub mod Poll
pub mod Dry
pub mod Records
pub mod Follow
pub mod Amp
pub mod Bands
pub mod Responses
pub mod Control
pub mod Tuner
pub mod Amplifier
pub mod Settings
