-- ===== src/Tgxl/Flexradio.antt =====
-- What the emulated tuner says of the radio, and the clients' changes of it.
use elecraft_genius_bridge.Bridge.Float.{Float32}
use elecraft_genius_bridge.Bridge.State.{BridgeState}
use elecraft_genius_bridge.Bridge.Desired.{ControlDiagnostics}
use elecraft_genius_bridge.Protocol.{response_line}
use elecraft_genius_bridge.Emulator.{format, text_or, command_token}
use elecraft_genius_bridge.Common.{
  Option, Text, [], codes, if◌then◌else◌, none, saturating_add, show_nat, some, true, ℕ, ◌==◌, ◌∷◌,
}

-- What every accepted control notes.
abbrev pub requested : Text → Text → Text → ControlDiagnostics → ControlDiagnostics
requested command action decision c = record c {
  aethersdr_button_command_seen = true;
  any_control_event_seen = true;
  control_requested_count = saturating_add c.control_requested_count 1;
  last_tgxl_control_command = some command;
  last_mapped_elecraft_action = some action;
  last_safety_decision = some decision;
}

abbrev pub or_else : Option Text → Option Text → Option Text
or_else none old = old
or_else (some value) old = some value

module _ (fl : Float32) where
  unfoldable pub flexradio_list_lines : ℕ → BridgeState fl → Text × Text
  flexradio_list_lines seq state =
      let c = state.radio_context in
      (
        response_line seq 0 (
            format (
              ("radio serial=", text_or c.radio_serial (codes "EGB-FLEX"))
              ∷ (" nickname=", text_or c.radio_nickname (codes "FlexRadio"))
              ∷ (" callsign=", text_or c.radio_callsign [])
              ∷ [])),
        response_line seq 0 [],
      )

  unfoldable pub flexradio_get_line : ℕ → BridgeState fl → ℕ → Text
  flexradio_get_line seq state ch =
      let c = state.radio_context in
      let antenna = text_or c.tx_antenna (if ch == 2 then codes "ANT2" else codes "ANT1") in
      response_line seq 0 (
        format (
          ("flexradio ch=", show_nat ch)
          ∷ (" active=1 serial=", text_or c.radio_serial (codes "EGB-FLEX"))
          ∷ (" antenna=", antenna)
          ∷ (" source=LAN", [])
          ∷ []))

  unfoldable pub flexradio_read_lines : ℕ → BridgeState fl → Text × Text
  unfolding flexradio_get_line
  flexradio_read_lines seq state = (flexradio_get_line seq state 1, flexradio_get_line seq state 2)

  unfoldable pub record_flexradio_set : ℕ → Text → BridgeState fl → BridgeState fl
  record_flexradio_set now command state = record state {
    controls =
        requested command (codes "TGXL flexradio config update")
          (codes "tgxl_flexradio_config_accepted") state.controls;
    radio_context =
        let c = state.radio_context in
        record c {
          radio_serial = or_else (command_token command (codes "serial")) c.radio_serial;
          tx_antenna = or_else (command_token command (codes "antenna")) c.tx_antenna;
          source = some (codes "tgxl_flexradio_set");
          updated_at = some now;
        };
  }
