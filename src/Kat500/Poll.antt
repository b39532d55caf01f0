-- ===== src/Kat500/Poll.antt =====
-- `poll_status_on_port` and `poll_status_outcomes` of the tuner: a pass of queries, and what their answers
-- do to the shared state. One reading of the clock stands for all those of a pass.
pub mod Standing
use elecraft_genius_bridge.Bridge.Float.{Float32}
use elecraft_genius_bridge.Bridge.State.{BridgeState}
use elecraft_genius_bridge.Bridge.Capability.{push_capability}
use elecraft_genius_bridge.Bridge.Stats.{record_poll_success}
use elecraft_genius_bridge.Bridge.Tuner.{ConnectionState, TunerState, connected, degraded}
use elecraft_genius_bridge.Bridge.Serial.{Window, Outcome, failed, done}
use elecraft_genius_bridge.Bridge.Serial.Await.{SerialRead}
use elecraft_genius_bridge.Kat500.Command.{
  ElecraftCommand, cmd_antenna_status, cmd_bypass_status, cmd_mode, cmd_tune_poll, cmd_fault,
  cmd_vswr, cmd_forward_adc,
}
use elecraft_genius_bridge.Kat500.Response.{parse_kat500_response}
use elecraft_genius_bridge.Kat500.Send.{send_command_collect}
use elecraft_genius_bridge.Common.{
  Bool, List, Option, Text, [], codes, false, map, none, saturating_add, some, true, ℕ, ◌||◌, ◌∷◌,
}

pub record CommandOutcome : Type 0 where
  pub command : ElecraftCommand
  pub response : Option Text
  pub unsolicited : List Text
  pub error : Option Text

unfoldable pub read_only_poll_commands : List ElecraftCommand
read_only_poll_commands =
    cmd_antenna_status ∷ cmd_bypass_status ∷ cmd_mode ∷ cmd_tune_poll ∷ cmd_fault ∷ cmd_vswr
    ∷ cmd_forward_adc ∷ []

abbrev pub outcome_of : ElecraftCommand → Outcome SerialRead → CommandOutcome
outcome_of command result = record {
  command = command;
  response = elim result [ failed e ↦ none | done read ↦ some read.response ];
  unsolicited = elim result [ failed e ↦ [] | done read ↦ read.unsolicited ];
  error = elim result [ failed e ↦ some e | done read ↦ none ];
}

-- What the port does after each command is given beforehand.
unfoldable pub ask_all : (ElecraftCommand → Window) → List ElecraftCommand → List CommandOutcome
ask_all port commands = map (λ c. outcome_of c (send_command_collect (port c) c)) commands

abbrev has_response : Option Text → Bool
has_response none = false
has_response (some r) = true

unfoldable pub any_response : List CommandOutcome → Bool
any_response [] = false
any_response (o ∷ os) = has_response o.response || any_response os

-- The milliseconds of the clock, and those that the queries took.
pub record PollClock : Type 0 where
  pub now : ℕ
  pub elapsed : ℕ

module _ (fl : Float32) where
  open fl use {Float}

  unfoldable pub note_responses : PollClock → Bool → TunerState Float → TunerState Float
  note_responses clock true t = record t {
    last_serial_response_at = some clock.now;
    last_successful_poll_at = some clock.now;
    runtime = record_poll_success t.runtime clock.elapsed;
  }
  note_responses clock false t = record t {
    connection_state = degraded;
    runtime = record (t.runtime) {
      poll_failure_count = saturating_add t.runtime.poll_failure_count 1;
    };
  }

  unfoldable pub begin_poll : PollClock → List CommandOutcome → TunerState Float → TunerState Float
  unfolding note_responses
  begin_poll clock outcomes t = note_responses clock (any_response outcomes) (record t {
    connected = true;
    connection_state = ConnectionState.connected;
    last_serial_command_at = some clock.now;
  })

  unfoldable pub read_lines : List Text → TunerState Float → TunerState Float
  read_lines [] t = t
  read_lines (line ∷ lines) t = read_lines lines (parse_kat500_response fl line t)

  unfoldable pub read_response : ElecraftCommand → Option Text → TunerState Float → TunerState Float
  read_response command none t = t
  read_response command (some response) t =
      parse_kat500_response fl response
        (record t { capabilities = push_capability t.capabilities command.label })

  unfoldable pub read_outcomes : List CommandOutcome → TunerState Float → TunerState Float
  unfolding read_lines read_response
  read_outcomes [] t = t
  read_outcomes (o ∷ os) t =
      read_outcomes os (read_lines o.unsolicited (read_response o.command o.response t))

  unfoldable pub poll_status_on_port :
      PollClock → (ElecraftCommand → Window) → BridgeState fl → List CommandOutcome × BridgeState fl
  unfolding begin_poll read_outcomes
  poll_status_on_port clock port g =
      let outcomes = ask_all port read_only_poll_commands in
      (outcomes, record g { tuner = read_outcomes outcomes (begin_poll clock outcomes g.tuner) })

  -- With a mock, or with a port whose opening may fail.
  unfoldable pub poll_status_outcomes :
      PollClock
      → Bool
      → Outcome (ElecraftCommand → Window)
      → BridgeState fl
      → Outcome (List CommandOutcome) × BridgeState fl
  unfolding poll_status_on_port
  poll_status_outcomes clock true opened g = (
    done (
        map (λ c. outcome_of c (done (record { response = codes "MOCK;"; unsolicited = [] })))
          read_only_poll_commands),
    record g {
      tuner = record (g.tuner) {
        connected = true;
        connection_state = ConnectionState.connected;
        last_serial_response_at = some clock.now;
        last_successful_poll_at = some clock.now;
      };
    },
  )
  poll_status_outcomes clock false (failed e) g = (failed e, g)
  poll_status_outcomes clock false (done port) g =
      let (outcomes, g') = poll_status_on_port clock port g in (done outcomes, g')
