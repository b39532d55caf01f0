-- ===== src/Kpa500/Control.antt =====
-- `set_operate_verified`, `set_standby` and `process_desired_control`: the amplifier is put into operate or
-- standby, and a query afterwards verifies it. Evidence files and log output are left out.
pub mod Verified
use elecraft_genius_bridge.Bridge.Float.{Float32}
use elecraft_genius_bridge.Bridge.State.{BridgeState, decided}
use elecraft_genius_bridge.Bridge.Amp.{
  AmpState, AmpOperatingState, AmpOperatingState-discrete, standby, operate, default_amp,
}
use elecraft_genius_bridge.Bridge.Serial.{
  Window, Sending, sent, write_failed, flush_failed, Outcome, failed, done,
}
use elecraft_genius_bridge.Kpa500.Command.{
  Kpa500Settings, ElecraftCommand, CommandSafety, read_only, state_change_safe, rf_risk,
  destructive_or_unknown, Blocked, dry_run_blocked, requires_allow_control, requires_allow_rf_risk,
  is_read_only, ensure_can_send, cmd_operate, cmd_standby, cmd_operate_status, cmd_clear_fault,
}
use elecraft_genius_bridge.Kpa500.Response.{parse_kpa500_response}
use elecraft_genius_bridge.Kpa500.Send.{send_command}
use elecraft_genius_bridge.Common.{
  Bool, List, Option, Text, [], codes, decides, false, if◌then◌else◌, none, not, saturating_add,
  some, true, ◌&&◌, ◌++◌, ◌∷◌,
}

pub data CommandResultState : Type 0 where
  acknowledged verified sent_no_ack verify_failed timed_out parse_failed : CommandResultState

pub record ControlCommandResult : Type 0 where
  pub command : ElecraftCommand
  pub send_result : CommandResultState
  pub verify_result : Option CommandResultState
  pub verification_response : Option Text
  pub final_state : Option AmpOperatingState

-- The port: whether the control is written and flushed, and the window of the query.
pub record ControlPort : Type 0 where
  pub sending : Sending
  pub status : Window

safety_str : CommandSafety → Text
safety_str read_only = codes "ReadOnly"
safety_str state_change_safe = codes "StateChangeSafe"
safety_str rf_risk = codes "RfRisk"
safety_str destructive_or_unknown = codes "DestructiveOrUnknown"

-- The texts of `anyhow::bail!` in `ensure_can_send`.
unfoldable pub blocked_message : Blocked → Text
unfolding safety_str
blocked_message (dry_run_blocked label safety) =
    codes "KPA500 dry-run blocked " ++ (label ++ (codes " (" ++ (safety_str safety ++ codes ")")))
blocked_message (requires_allow_control label) =
    codes "KPA500 safe command " ++ (label ++ codes " requires allow_control")
blocked_message (requires_allow_rf_risk label) =
    codes "KPA500 RF-risk command " ++ (label ++ codes " requires allow_rf_risk")

abbrev pub same_flag : Bool → Bool → Bool
same_flag true b = b
same_flag false b = not b

-- `matches!((expected_operate, amp.state), (false, Standby) | (true, Operate))`
abbrev pub expected_state : Bool → AmpOperatingState
expected_state true = operate
expected_state false = standby

verify_str : Option CommandResultState → Text
verify_str none = codes "None"
verify_str (some sent_no_ack) = codes "Some(SentNoAck)"
verify_str (some acknowledged) = codes "Some(Acknowledged)"
verify_str (some verified) = codes "Some(Verified)"
verify_str (some verify_failed) = codes "Some(VerifyFailed)"
verify_str (some timed_out) = codes "Some(Timeout)"
verify_str (some parse_failed) = codes "Some(ParseFailed)"

-- `none` is `Ok(())`.
unfoldable pub send_no_ack_command : Sending → ElecraftCommand → Option Text
send_no_ack_command sent command = none
send_no_ack_command write_failed command =
    some (codes "failed to write serial command " ++ command.label)
send_no_ack_command flush_failed command = some (codes "failed to flush serial port")

module _ (fl : Float32) where
  abbrev fresh : AmpState (fl.Float)
  fresh = default_amp (fl.decimal 0 1) (fl.decimal 1 0)

  -- Whether a response verifies the control. It is read into a new `AmpState`.
  unfoldable pub verifies : Text → Bool → Bool
  verifies response expected_operate =
      let amp = parse_kpa500_response fl response fresh in
      same_flag amp.operate expected_operate
      && decides (AmpOperatingState-discrete amp.state (expected_state expected_operate))

  unfoldable pub verify :
      ElecraftCommand → Bool → Outcome Text → BridgeState fl → ControlCommandResult × BridgeState fl
  unfolding verifies
  verify command expected_operate (failed e) g = (
    record {
      command = command;
      send_result = sent_no_ack;
      verify_result = some timed_out;
      verification_response = some e;
      final_state = none;
    },
    g,
  )
  verify command expected_operate (done response) g =
      let amp = parse_kpa500_response fl response fresh in
      let result : CommandResultState → ControlCommandResult = λ v. record {
        command = command;
        send_result = sent_no_ack;
        verify_result = some v;
        verification_response = some response;
        final_state = some amp.state;
      } in
      if verifies response expected_operate
      then (result verified, record g { amp = parse_kpa500_response fl response g.amp })
      else (result verify_failed, g)

  -- The result or the error, the state, and the controls written to the port.
  unfoldable pub send_ackless_verified :
      Kpa500Settings
      → ControlPort
      → ElecraftCommand
      → Bool
      → BridgeState fl
      → Outcome ControlCommandResult × BridgeState fl × List Text
  unfolding verify
  send_ackless_verified s port command expected_operate g = elim (ensure_can_send s command) [
    | some why ↦ (failed (blocked_message why), g, [])
    | none ↦ elim (send_no_ack_command port.sending command) [
      | some e ↦ (failed e, g, command.wire ∷ [])
      | none ↦
          let (result, g') =
            verify command expected_operate (send_command port.status cmd_operate_status) g in
          (done result, g', command.wire ∷ [])
    ]
  ]

  note_blocked : Kpa500Settings → ElecraftCommand → BridgeState fl → BridgeState fl
  note_blocked s command g =
      if s.dry_run && not (is_read_only command.safety)
      then record g {
        controls = record (g.controls) {
          last_mapped_elecraft_action = some (codes "KPA500 " ++ command.wire);
          last_safety_decision = some (codes "blocked_by_dry_run: kpa500.dry_run=true");
          blocked_by_dry_run_count = saturating_add g.controls.blocked_by_dry_run_count 1;
        };
      }
      else g

  note_result : ElecraftCommand → Outcome ControlCommandResult → BridgeState fl → BridgeState fl
  unfolding verify_str
  note_result command (failed e) g = g
  note_result command (done r) g = record g {
    controls = record (g.controls) {
      last_executed_elecraft_command = some command.wire;
      last_safety_decision =
          some (codes "send_result=SentNoAck; verify_result=" ++ verify_str r.verify_result);
    };
  }

  pub record Passed : Type 0 where
    pub state : BridgeState fl
    pub wires : List Text
    pub error : Option Text

  abbrev error_of : Outcome ControlCommandResult → Option Text
  error_of (failed e) = some e
  error_of (done r) = none

  set_amp : Kpa500Settings → ControlPort → Option Bool → BridgeState fl → Passed
  unfolding note_blocked note_result
  set_amp s port none g = record { state = g; wires = []; error = none }
  set_amp s port (some wanted) g =
      let command = if wanted then cmd_operate else cmd_standby in
      let (result, g', wires) =
        send_ackless_verified s port command wanted (note_blocked s command g) in
      record { state = note_result command result g'; wires = wires; error = error_of result }

  unfoldable pub process_desired_control : Kpa500Settings → ControlPort → BridgeState fl → Passed
  unfolding set_amp
  process_desired_control s port g =
      set_amp s port g.desired.amp_operate
        (record g { desired = record (g.desired) { amp_operate = none } })

  -- What a public control returns, with `mock` and the port that is opened for it.
  abbrev mocked : ElecraftCommand → Text → AmpOperatingState → ControlCommandResult
  mocked command response state = record {
    command = command;
    send_result = sent_no_ack;
    verify_result = some verified;
    verification_response = some response;
    final_state = some state;
  }

  on_port :
      Kpa500Settings
      → Outcome ControlPort
      → ElecraftCommand
      → Bool
      → BridgeState fl
      → Outcome ControlCommandResult × BridgeState fl × List Text
  on_port s (failed e) command expected_operate g = (failed e, g, [])
  on_port s (done port) command expected_operate g =
      send_ackless_verified s port command expected_operate g

  unfoldable pub set_operate_verified :
      Kpa500Settings
      → Bool
      → Outcome ControlPort
      → BridgeState fl
      → Outcome ControlCommandResult × BridgeState fl × List Text
  unfolding on_port
  set_operate_verified s mock opened g = elim (ensure_can_send s cmd_operate) [
    | some why ↦ (failed (blocked_message why), g, [])
    | none ↦
        if mock
        then (
          done (mocked cmd_operate (codes "^OS1;") operate),
          record g { amp = record (g.amp) { operate = true; state = operate } },
          [],
        )
        else on_port s opened cmd_operate true g
  ]

  unfoldable pub set_standby :
      Kpa500Settings
      → Bool
      → Outcome ControlPort
      → BridgeState fl
      → Outcome ControlCommandResult × BridgeState fl × List Text
  unfolding on_port
  set_standby s mock opened g = elim (ensure_can_send s cmd_standby) [
    | some why ↦ (failed (blocked_message why), g, [])
    | none ↦
        if mock
        then (
          done (mocked cmd_standby (codes "^OS0;") standby),
          record g {
            amp = record (g.amp) {
              operate = false;
              state = standby;
              forward_power_watts = fl.decimal 0 1;
            };
          },
          [],
        )
        else on_port s opened cmd_standby false g
  ]

  cleared : Outcome Text → Option Text
  cleared (failed e) = some e
  cleared (done response) = none

  clear_on_port : Outcome Window → Option Text
  unfolding cleared
  clear_on_port (failed e) = some e
  clear_on_port (done port) = cleared (send_command port cmd_clear_fault)

  -- The error, if any, and the state.
  unfoldable pub clear_fault :
      Kpa500Settings → Bool → Outcome Window → BridgeState fl → Option Text × BridgeState fl
  unfolding clear_on_port
  clear_fault s mock opened g = elim (ensure_can_send s cmd_clear_fault) [
    | some why ↦ (some (blocked_message why), g)
    | none ↦
        if mock
        then (none, record g { amp = record (g.amp) { fault = none } })
        else (clear_on_port opened, g)
  ]
