-- ===== src/Flex.antt =====
-- crates/flex-injection/src/lib.rs: the bridge as a client of the radio.
pub mod Response
