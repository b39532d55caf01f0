-- ===== src/Bridge/Latency.antt =====
-- `KpaStateTransitionLatency` and the methods of `FlexInjectionState` that keep the list of them
-- (crates/bridge-core/src/state.rs): how fast a change of the amplifier's state shows in the PGXL
-- status and in the radio's. The clock is an argument.
pub mod Entry
pub mod Log
pub mod Once
