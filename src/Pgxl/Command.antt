-- ===== src/Pgxl/Command.antt =====
-- `handle_command` of the emulated amplifier. The clock is an argument.
use elecraft_genius_bridge.Bridge.Float.{Float32}
use elecraft_genius_bridge.Bridge.State.{BridgeState}
use elecraft_genius_bridge.Bridge.Latency.Log.{record_pgxl_status_observed}
use elecraft_genius_bridge.Protocol.{response_line}
use elecraft_genius_bridge.Emulator.{format, text_or}
use elecraft_genius_bridge.Pgxl.Status.{version, status_field, status_body, status_body_from_amp}
use elecraft_genius_bridge.Common.{
  Bool, String, Text, [], codes, false, if◌then◌else◌, not, saturating_add, some, starts_with,
  strip_prefix, true, ℕ, ◌&&◌, ◌==◌, ◌is◌, ◌||◌, ◌∷◌,
}

pub record CommandOutcome : Type 0 where
  pub response : Text
  pub unknown : Bool
  pub unsupported : Bool

abbrev pub ok : Text → CommandOutcome
ok response = record { response = response; unknown = false; unsupported = false }

abbrev pub rejected : Text → CommandOutcome
rejected response = record { response = response; unknown = false; unsupported = true }

unfoldable pub info_body : Bool → Text
info_body aethersdr_compat =
    if aethersdr_compat
    then format (("model=PowerGeniusXL serial_num=EGB-PGXL version=", version) ∷ [])
    else format (
        ("model=PowerGeniusXL serial_num=EGB-PGXL version=", version)
        ∷ (" firmware=", version)
        ∷ (" capabilities=direct_tcp,status", [])
        ∷ [])

abbrev setup_body : Text
setup_body = codes "nickname=Elecraft_Genius_Bridge fan=auto meffa=OK led=128"

abbrev ifconf_body : Text
ifconf_body =
    codes "address=0.0.0.0 netmask=255.255.255.0 gateway=0.0.0.0 dhcp=true gateway-status=0.0.0.0"

unfoldable pub normalized_amp_slice : ℕ → ℕ
normalized_amp_slice slice = if slice == b'b' || slice == b'B' then b'B' else b'A'

unfoldable pub catradio_body : ℕ → Text
catradio_body slice = format (
    ("ampslice=", normalized_amp_slice slice ∷ [])
    ∷ (" active=0 type=None baud=0 parity=N stopbits=1 civ=0", [])
    ∷ [])

-- `chars().next().unwrap_or('A')`
first_char : Text → ℕ
first_char [] = b'A'
first_char (c ∷ t) = c

-- `strip_prefix(prefix).unwrap_or("A")` and its first character.
unfoldable pub slice_after : String → Text → ℕ
unfolding first_char
slice_after prefix command = first_char (text_or (strip_prefix (codes prefix) command) (codes "A"))

module _ (fl : Float32) where
  unfoldable pub flexradio_body : ℕ → BridgeState fl → Text
  flexradio_body slice g = format (
      ("ampslice=", normalized_amp_slice slice ∷ [])
      ∷ (" serial=", text_or g.radio_context.radio_serial (codes "EGB-FLEX"))
      ∷ (" txant=", text_or g.radio_context.tx_antenna (codes "ANT1"))
      ∷ (" ptt=LAN active=1", [])
      ∷ [])

  -- What `operate` and `standby` share.
  unfoldable pub ask_amp : Text → Text → Text → Bool → BridgeState fl → BridgeState fl
  ask_amp command action decision wanted g = record g {
    controls =
        let c = g.controls in
        record c {
          aethersdr_button_command_seen = true;
          amp_control_command_seen = true;
          any_control_event_seen = true;
          control_requested_count = saturating_add c.control_requested_count 1;
          last_pgxl_control_command = some command;
          last_mapped_elecraft_action = some action;
          last_safety_decision = some decision;
        };
    desired = record (g.desired) { amp_operate = some wanted };
  }

  unfoldable pub note_status : ℕ → Text → BridgeState fl → BridgeState fl
  note_status now shown g = record g {
    flex_injection =
        let f = g.flex_injection in
        record f {
          last_pgxl_status_state_at_ms = some now;
          last_pgxl_status_state = some shown;
          kpa_state_transitions = (record_pgxl_status_observed f.kpa_state_transitions now shown).0;
        };
  }

  -- The outcome, and the state after the command.
  abbrev pub Handled : Type 0
  Handled = CommandOutcome × BridgeState fl

  module _ (now seq : ℕ) (command : Text) (aethersdr_compat : Bool) (status_profile : Text) where
    unfoldable pub handle_status : BridgeState fl → Handled
    unfolding note_status
    handle_status g =
        let (body, g') = status_body fl now g aethersdr_compat status_profile in
        let shown = text_or (status_field body (codes "state")) (codes "UNKNOWN") in
        (ok (response_line seq 0 body), note_status now shown g')

    unfoldable pub handle_amp : Text → Text → Bool → BridgeState fl → Handled
    unfolding ask_amp
    handle_amp action decision wanted g =
        let g' = ask_amp command action decision wanted g in
        (
          ok (
              response_line seq 0
                (status_body_from_amp fl now g'.amp aethersdr_compat status_profile)),
          g',
        )

    -- The arms from the radio's on.
    unfoldable pub handle_rest : BridgeState fl → Handled
    unfolding handle_amp
    handle_rest g =
        if starts_with (codes "flexradio read=") command
        then (
          ok (response_line seq 0 (flexradio_body (slice_after "flexradio read=" command) g)),
          g,
        )
        else if starts_with (codes "flexradio ") command
        then (
          rejected (response_line seq 5 (codes "error=flexradio_config_unsupported_by_bridge")),
          g,
        )
        else if command is "save"
        then (rejected (response_line seq 5 (codes "error=save_reboot_unsupported_by_bridge")), g)
        else if command is "operate"
        then handle_amp (codes "KPA500 ^OS1;") (codes "desired_operate_requested") true g
        else if command is "standby"
        then handle_amp (codes "KPA500 ^OS0;") (codes "desired_standby_requested") false g
        else (
          record {
            response = response_line seq 1 (codes "error=unknown_command");
            unknown = true;
            unsupported = false;
          },
          g,
        )

    unfoldable pub handle_command : BridgeState fl → Handled
    unfolding handle_status handle_rest
    handle_command g =
        if command is "info"
        then (ok (response_line seq 0 (info_body aethersdr_compat)), g)
        else if command is "status"
        then handle_status g
        else if command is "setup read" || command is "setup"
        then (ok (response_line seq 0 setup_body), g)
        else if command is "ifconf read" || command is "network" || command is "network read"
        then (ok (response_line seq 0 ifconf_body), g)
        else if starts_with (codes "ifconf ") command && not (command is "ifconf read")
        then (
          rejected (response_line seq 5 (codes "error=network_config_unsupported_by_bridge")),
          g,
        )
        else if starts_with (codes "catradio read=") command
        then (ok (response_line seq 0 (catradio_body (slice_after "catradio read=" command))), g)
        else if starts_with (codes "catradio ") command
        then (
          rejected (response_line seq 5 (codes "error=catradio_config_unsupported_by_bridge")),
          g,
        )
        else handle_rest g
