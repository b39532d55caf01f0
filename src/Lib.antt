-- ===== src/Lib.antt =====
-- The Elecraft Genius Bridge lets a FlexRadio client drive an Elecraft KPA500 amplifier and a KAT500
-- antenna tuner as if they were a 4O3A Power Genius XL and Tuner Genius XL. The bridge polls the two
-- devices over serial ports, keeps what it learns in one shared state, answers the clients of two
-- emulated network devices from it, and registers the amplifier with the radio. A policy, made
-- from the configuration, sets the guards of the two drivers. A control that a client asks for lies in
-- a mailbox of the shared state until a pass of the driver takes it out.
--
-- The files and the code they model:
--
--   Common       texts as lists of code points with the `str` methods that the code uses, decimal
--                numbers with a bound for the integer's width, saturating addition, lists
--   Protocol     crates/bridge-core/src/protocol.rs: `parse_client_command`, `response_line`
--   Bridge       crates/bridge-core/src/state.rs: Band, Lifecycle (`LifecycleStatus` and
--                `TuneLifecycleStatus`), Stats (`DeviceRuntimeStats`), Capability
--                (`push_capability`), Latency (the log of amplifier state changes: Entry for one
--                record, Log for the four methods, Once for what later observations keep), State
--                (`BridgeState`), Tuner (`TunerState`), Amp (`AmpState`), Radio (`RadioContext`),
--                Injection (the part of `FlexInjectionState` that drivers and emulators write),
--                Desired (`DesiredState`, the mailbox, and `ControlDiagnostics`), Serial (the port;
--                Await holds the loop that both drivers await a response in), Float (the interface of
--                `f32`)
--   Flex         crates/flex-injection/src/lib.rs: `parse_response`
--   Config       crates/config/src/lib.rs: Device (`SerialDeviceConfig`), Operational
--                (`OperationalConfig`), Emulators (`PgxlConfig`, `TgxlConfig`), FlexInjection
--                (`FlexInjectionConfig`), Whole (`BridgeConfig::validate`), Checks (the checks that the
--                sections share); Checked holds a theorem
--   Kat500       crates/elecraft-kat500/src/lib.rs: Command (the commands, `ensure_can_send`,
--                `command_allowed`), Frequency (the frequency wire and its echo), Response
--                (`parse_kat500_response`; Tuning, Ranges, Connected and Capabilities hold theorems),
--                Send (`send_command`), Echo (`send_frequency_context_once_exact` and
--                `send_frequency_context_confirmed`),
--                Follow (`refresh_tuning_state_if_needed` and `process_frequency_follow`; Passes and
--                Once hold theorems on one pass and on two), Tune (`poll_tune_until_idle`; Ends and
--                Keeps hold theorems), Desired (`process_desired_control` and
--                `apply_desired_command`; Guarded, Switched and Taken hold theorems),
--                Poll (`poll_status_on_port`, `poll_status_outcomes`; Standing holds theorems),
--                Direct (`autotune`, `set_antenna`, `set_bypass`)
--   Kpa500       crates/elecraft-kpa500/src/lib.rs: Command (the commands and `ensure_can_send`),
--                Response (`parse_kpa500_response`; Agreement and Untouched hold theorems), Band (the band wire and
--                its echo), Follow (`send_band_follow_confirmed` and `process_band_follow`; Echo and
--                Sends hold theorems), Send (`send_command`), Changes
--                (`record_amp_poll_change`), Control (`process_desired_control`,
--                `set_operate_verified`, `set_standby`, `clear_fault`; Verified holds theorems),
--                Poll (`poll_status_on_port`, `poll_status_outcomes`; Missing and Standing hold
--                theorems)
--   Emulator     what crates/tgxl-emulator/src/lib.rs and crates/pgxl-emulator/src/lib.rs share
--   Tgxl         crates/tgxl-emulator/src/lib.rs: Status, Flexradio, Relay, Control and Command
--                (`handle_command`); Answers, Mailbox, Requests and Carried hold theorems, the last
--                on the emulator and the KAT500 driver together
--   Pgxl         crates/pgxl-emulator/src/lib.rs: Status and Command (`handle_command`); Shown and
--                Mailbox hold theorems, the last with the KPA500 driver
--   Egb          crates/egb/src/main.rs: Policy (`effective_control_policy` and the settings that
--                `start_bridge` hands to the drivers), Policy.Gates (policy and guards together),
--                Policy.Passes (policy and the drivers' passes together)
--   Examples     concrete runs
--
-- Integers are natural numbers. A bound of a Rust type is written where the code meets it: in the
-- parsing of a number and in saturating additions. Times are arguments, in milliseconds. `f32` is
-- the record Float32, a type with the operations that the code applies and no laws; one instance,
-- in hundredths, serves for the examples. Log output and transcripts are left out. A pass of a
-- driver is one step: what other tasks write to the shared state while it waits for the device is
-- left out. The serial port appears as an argument: the lines that arrive before a deadline, and
-- errors. Loops over lists are structural recursion. The wait for the end of a tune takes 31 rounds of
-- fuel: its pauses of 500 ms fill the 15 seconds after 30 of them. Where the code takes a prefix away as
-- often as it stands there, the length of the text is the fuel.
--
-- Not modelled: the serial ports, the sockets and the session loops on them with their counters and
-- transcripts, YAML and JSON, the command line and the reports of crates/egb/src/main.rs, crates/egb-gui,
-- crates/bridge-core/src/evidence.rs, crates/test-harness, and the tools and scripts, which are input,
-- output and formatting; and, for now, the Flex session, the watchdogs, and the functions of both
-- drivers whose names end in `_serial`.
pub mod Common
pub mod Protocol
pub mod Bridge
pub mod Flex
pub mod Config
pub mod Kat500
pub mod Kpa500
pub mod Emulator
pub mod Tgxl
pub mod Pgxl
pub mod Egb
pub mod Examples
