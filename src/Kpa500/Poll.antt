-- ===== src/Kpa500/Poll.antt =====
-- `poll_status_on_port` and `poll_status_outcomes`: a pass of queries, and what their answers do to the
-- shared state. One reading of the clock stands for all those of a pass; evidence files and log output are
-- left out.
pub mod Missing
pub mod Standing
use elecraft_genius_bridge.Bridge.Float.{Float32}
use elecraft_genius_bridge.Bridge.State.{BridgeState}
use elecraft_genius_bridge.Bridge.Amp.{AmpState}
use elecraft_genius_bridge.Bridge.Capability.{push_capability}
use elecraft_genius_bridge.Bridge.Stats.{record_poll_success}
use elecraft_genius_bridge.Bridge.Tuner.{ConnectionState, connected, degraded}
use elecraft_genius_bridge.Bridge.Serial.{Window, Outcome, failed, done}
use elecraft_genius_bridge.Bridge.Serial.Await.{SerialRead}
use elecraft_genius_bridge.Kpa500.Command.{
  ElecraftCommand, cmd_operate_status, cmd_power_swr, cmd_temperature, cmd_volts_current, cmd_fault,
}
use elecraft_genius_bridge.Kpa500.Response.{parse_kpa500_response}
use elecraft_genius_bridge.Kpa500.Send.{send_command_collect}
use elecraft_genius_bridge.Kpa500.Changes.{record_amp_poll_change}
use elecraft_genius_bridge.Common.{
  Bool, List, Option, Text, [], codes, false, if◌then◌else◌, map, none, saturating_add, show_nat,
  some, text_eq, true, ℕ, ◌&&◌, ◌++◌, ◌||◌, ◌∷◌,
}

pub record CommandOutcome : Type 0 where
  pub command : ElecraftCommand
  pub response : Option Text
  pub error : Option Text
  pub unsolicited : List Text

unfoldable pub read_only_poll_commands : List ElecraftCommand
read_only_poll_commands =
    cmd_operate_status ∷ cmd_power_swr ∷ cmd_temperature ∷ cmd_volts_current ∷ cmd_fault ∷ []

abbrev pub outcome_of : ElecraftCommand → Outcome SerialRead → CommandOutcome
outcome_of command result = record {
  command = command;
  response = elim result [ failed e ↦ none | done read ↦ some read.response ];
  error = elim result [ failed e ↦ some e | done read ↦ none ];
  unsolicited = elim result [ failed e ↦ [] | done read ↦ read.unsolicited ];
}

-- What the port does after each command is given beforehand.
unfoldable pub ask_all : (ElecraftCommand → Window) → List ElecraftCommand → List CommandOutcome
ask_all port commands = map (λ c. outcome_of c (send_command_collect (port c) c)) commands

abbrev pub has_response : Option Text → Bool
has_response none = false
has_response (some r) = true

unfoldable pub any_response : List CommandOutcome → Bool
any_response [] = false
any_response (o ∷ os) = has_response o.response || any_response os

unfoldable pub responded : List CommandOutcome → Text → Bool
responded [] label = false
responded (o ∷ os) label =
    (text_eq o.command.label label && has_response o.response) || responded os label

unfoldable pub required : List Text
required =
    cmd_operate_status.label ∷ cmd_temperature.label ∷ cmd_volts_current.label ∷ cmd_fault.label
    ∷ []

unfoldable pub missing : List CommandOutcome → List Text → List Text
missing outcomes [] = []
missing outcomes (label ∷ labels) =
    if responded outcomes label then missing outcomes labels else label ∷ missing outcomes labels

join_comma : List Text → Text
join_comma [] = []
join_comma (label ∷ []) = label
join_comma (label ∷ other ∷ labels) = label ++ (codes ", " ++ join_comma (other ∷ labels))

-- What the error of the first poll says of the settings.
pub record PortName : Type 0 where
  pub com_port : Text
  pub baud : ℕ

-- The milliseconds of the clock, and those that the queries took.
pub record PollClock : Type 0 where
  pub now : ℕ
  pub elapsed : ℕ

module _ (fl : Float32) where
  open fl use {Float}

  unfoldable pub note_responses : PollClock → Bool → AmpState Float → AmpState Float
  note_responses clock true a = record a {
    last_serial_response_at = some clock.now;
    last_successful_poll_at = some clock.now;
    runtime = record_poll_success a.runtime clock.elapsed;
  }
  note_responses clock false a = record a {
    connection_state = degraded;
    runtime = record (a.runtime) {
      poll_failure_count = saturating_add a.runtime.poll_failure_count 1;
    };
  }

  unfoldable pub begin_poll : PollClock → List CommandOutcome → AmpState Float → AmpState Float
  unfolding note_responses
  begin_poll clock outcomes a = note_responses clock (any_response outcomes) (record a {
    connected = true;
    connection_state = ConnectionState.connected;
    last_serial_command_at = some clock.now;
  })

  -- A line is parsed, and the change is recorded against the state before it.
  unfoldable pub read_line : ℕ → Text → BridgeState fl → BridgeState fl
  read_line now line g =
      let before = record (g.amp) { last_raw_response = some line } in
      let after = parse_kpa500_response fl line before in
      record g {
        amp = after;
        flex_injection = record_amp_poll_change fl before after line now g.flex_injection;
      }

  unfoldable pub read_lines : ℕ → List Text → BridgeState fl → BridgeState fl
  unfolding read_line
  read_lines now [] g = g
  read_lines now (line ∷ lines) g = read_lines now lines (read_line now line g)

  unfoldable pub read_response : ℕ → ElecraftCommand → Option Text → BridgeState fl → BridgeState fl
  unfolding read_line
  read_response now command none g = g
  read_response now command (some response) g = read_line now response (record g {
    amp = record (g.amp) {
      capabilities = push_capability g.amp.capabilities command.label;
      last_successful_command = some command.label;
    };
  })

  unfoldable pub read_outcomes : ℕ → List CommandOutcome → BridgeState fl → BridgeState fl
  unfolding read_lines read_response
  read_outcomes now [] g = g
  read_outcomes now (o ∷ os) g =
      read_outcomes now os (read_response now o.command o.response (read_lines now o.unsolicited g))

  unfoldable pub finish_poll : PortName → List Text → AmpState Float → AmpState Float
  unfolding join_comma
  finish_poll name [] a = record a { first_poll_completed = true; first_poll_error = none }
  finish_poll name (label ∷ labels) a = record a {
    first_poll_error = some (
        codes "missing first-poll responses for "
        ++ (join_comma (label ∷ labels)
            ++ (codes " on "
                ++ (name.com_port ++ (codes " at " ++ (show_nat name.baud ++ codes " baud"))))));
  }

  unfoldable pub poll_status_on_port :
      PortName
      → PollClock
      → (ElecraftCommand → Window)
      → BridgeState fl
      → List CommandOutcome × BridgeState fl
  unfolding begin_poll read_outcomes finish_poll missing required
  poll_status_on_port name clock port g =
      let outcomes = ask_all port read_only_poll_commands in
      let begun = record g { amp = begin_poll clock outcomes g.amp } in
      let read = read_outcomes clock.now outcomes begun in
      (outcomes, record read { amp = finish_poll name (missing outcomes required) read.amp })

  -- With a mock, or with a port whose opening may fail.
  unfoldable pub poll_status_outcomes :
      PortName
      → PollClock
      → Bool
      → Outcome (ElecraftCommand → Window)
      → BridgeState fl
      → Outcome (List CommandOutcome) × BridgeState fl
  unfolding poll_status_on_port
  poll_status_outcomes name clock true opened g = (
    done (
        map (λ c. outcome_of c (done (record { response = codes "MOCK;"; unsolicited = [] })))
          read_only_poll_commands),
    record g {
      amp = record (g.amp) {
        connected = true;
        connection_state = ConnectionState.connected;
        last_serial_response_at = some clock.now;
        last_successful_poll_at = some clock.now;
      };
    },
  )
  poll_status_outcomes name clock false (failed e) g = (failed e, g)
  poll_status_outcomes name clock false (done port) g =
      let (outcomes, g') = poll_status_on_port name clock port g in (done outcomes, g')
