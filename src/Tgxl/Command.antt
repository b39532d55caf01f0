-- ===== src/Tgxl/Command.antt =====
-- `handle_command`: the queries first, then the commands that ask something of the tuner.
use elecraft_genius_bridge.Bridge.Float.{Float32}
use elecraft_genius_bridge.Bridge.State.{BridgeState}
use elecraft_genius_bridge.Protocol.{response_line}
use elecraft_genius_bridge.Emulator.{format, command_channel, nat_or}
use elecraft_genius_bridge.Tgxl.Status.{status_line}
use elecraft_genius_bridge.Tgxl.Flexradio.{
  flexradio_list_lines, flexradio_read_lines, flexradio_get_line, record_flexradio_set,
}
use elecraft_genius_bridge.Tgxl.Control.{ok, with_pushes, rejected, Handled, handle_control}
use elecraft_genius_bridge.Common.{
  Bool, Text, [], codes, if◌then◌else◌, max, min, show_nat, starts_with, ℕ, ◌is◌, ◌||◌, ◌∷◌,
}

abbrev version : Text
version = codes "0.1.0-egb-tgxl"

unfoldable pub info_body : Bool → Text
info_body aethersdr_compat =
    if aethersdr_compat
    then format (
        ("info serial=EGB-TGXL serial_num=EGB-TGXL version=", version)
        ∷ (" nickname=Tuner_Genius_XL 3way=1 model=TunerGeniusXL one_by_three=1", [])
        ∷ [])
    else format (
        ("info serial=EGB-TGXL serial_num=EGB-TGXL version=", version)
        ∷ (" firmware=", version)
        ∷ (
          " nickname=Tuner_Genius_XL 3way=1 model=TunerGeniusXL one_by_three=1 capabilities=direct_tcp,status,autotune,ant,manual_tune,flexradio,catradio,setup",
          [],
        )
        ∷ [])

unfoldable pub network_body : Text
network_body = codes "ifconf dhcp=1 ip=0.0.0.0 netmask=255.255.255.0 gateway=0.0.0.0"

unfoldable pub setup_body : Text
setup_body =
    codes
      "setup nickname=Tuner_Genius_XL code= backlight=128 bypass1=0 bypass2=0 tuneptt1=1 tuneptt2=1"

unfoldable pub catradio_body : ℕ → Text
catradio_body ch = format (
    ("catradio ch=", show_nat ch) ∷ (" active=0 type=KENWOOD baud=4800 control=8N2 civ=0", []) ∷ [])

-- `command_channel(command).unwrap_or(1).clamp(1, 2)`
abbrev channel_of : Text → ℕ
channel_of command = max 1 (min 2 (nat_or (command_channel command) 1))

module _ (fl : Float32) (seq : ℕ) (command : Text) (aethersdr_compat : Bool)
    (control_profile : Text) where
  -- The arms on the radio, the saving, and all that follow.
  unfoldable pub handle_rest :
      ℕ → BridgeState fl → Handled fl seq command aethersdr_compat control_profile
  handle_rest now state =
      if command is "flexradio list"
      then (let (radio, last) = flexradio_list_lines fl seq state in
          (with_pushes radio (last ∷ []), state))
      else if command is "flexradio read"
      then (let (first, second) = flexradio_read_lines fl seq state in
          (with_pushes first (second ∷ []), state))
      else if starts_with (codes "flexradio get ") command
      then (ok (flexradio_get_line fl seq state (channel_of command)), state)
      else if starts_with (codes "flexradio set ") command
      then (ok (response_line seq 0 []), record_flexradio_set fl now command state)
      else if command is "save"
      then (ok (response_line seq 0 []), state)
      else handle_control fl seq command aethersdr_compat control_profile now state

  unfoldable pub handle_command :
      ℕ → BridgeState fl → Handled fl seq command aethersdr_compat control_profile
  unfolding handle_rest catradio_body
  handle_command now state =
      if starts_with (codes "auth ") command
      then (ok (response_line seq 0 (codes "auth OK")), state)
      else if command is "btl"
      then (rejected (response_line seq 5 (codes "error=bootloader_unsupported_by_bridge")), state)
      else if command is "info"
      then (ok (response_line seq 0 (info_body aethersdr_compat)), state)
      else if command is "status"
      then (let (line, state') = status_line fl seq state aethersdr_compat control_profile in
          (ok line, state'))
      else if command is "ifconf read" || command is "network" || command is "network read"
      then (ok (response_line seq 0 network_body), state)
      else if starts_with (codes "ifconf set ") command
      then (ok (response_line seq 0 (codes "0")), state)
      else if command is "setup read"
      then (ok (response_line seq 0 setup_body), state)
      else if starts_with (codes "setup set ") command
      then (ok (response_line seq 0 []), state)
      else if command is "catradio read"
      then (
        with_pushes (response_line seq 0 (catradio_body 1))
            (response_line seq 0 (catradio_body 2) ∷ []),
        state,
      )
      else if starts_with (codes "catradio get ") command
      then (ok (response_line seq 0 (catradio_body (channel_of command))), state)
      else if starts_with (codes "catradio set ") command
      then (ok (response_line seq 0 []), state)
      else handle_rest now state
