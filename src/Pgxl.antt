-- ===== src/Pgxl.antt =====
-- crates/pgxl-emulator: the Power Genius XL that the bridge shows to its clients.
pub mod Status
pub mod Command
pub mod Shown
pub mod Mailbox
