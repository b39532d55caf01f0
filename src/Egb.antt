-- ===== src/Egb.antt =====
-- crates/egb/src/main.rs: the program that puts the bridge together.
pub mod Policy
