-- ===== src/Tgxl.antt =====
-- crates/tgxl-emulator: the Tuner Genius XL that the bridge shows to its clients.
pub mod Status
pub mod Flexradio
pub mod Relay
pub mod Command
pub mod Control
pub mod Answers
pub mod Mailbox
pub mod Requests
pub mod Carried
