-- ===== src/Kat500/Send.antt =====
-- `send_command`: a command, and the response that it awaits.
use elecraft_genius_bridge.Bridge.Serial.{Outcome, failed, done, Window, if_sent}
use elecraft_genius_bridge.Bridge.Serial.Await.{
  SerialRead, collect, ended, Answers, if_sent-Answers,
}
use elecraft_genius_bridge.Kat500.Command.{ElecraftCommand}
use elecraft_genius_bridge.Common.{
  Bool, List, Text, [], any_prefix, codes, if◌then◌else◌, text_eq, ◌++◌, ◌is◌, ◌||◌, ◌∷◌,
}

unfoldable pub expected_prefixes : ElecraftCommand → List Text
expected_prefixes command =
    if command.label is "null_wake"
    then codes ";" ∷ []
    else if command.label is "read_firmware"
    then codes "RV" ∷ []
    else if command.label is "read_serial_number"
    then codes "SN" ∷ []
    else if command.label is "read_antenna" || command.label is "set_antenna"
    then codes "AN" ∷ []
    else if command.label is "read_bypass"
        || command.label is "set_bypass_on"
        || command.label is "set_bypass_off"
    then codes "BYP" ∷ []
    else if command.label is "read_mode"
    then codes "MD" ∷ []
    else if command.label is "read_tune_poll"
    then codes "TP" ∷ []
    else if command.label is "read_fault"
    then codes "FLT" ∷ []
    else if command.label is "read_vswr"
    then codes "VSWR " ∷ []
    else if command.label is "read_forward_adc"
    then codes "VFWD " ∷ []
    else if command.label is "autotune"
    then codes "T" ∷ codes "FT" ∷ []
    else if command.label is "set_frequency_context"
    then codes "F " ∷ []
    else []

unfoldable pub matches_expected_response : Text → List Text → Text → Bool
matches_expected_response wire prefixes response =
    text_eq response wire || any_prefix prefixes response

unfoldable pub send_wire_command : Window → Text → Text → List Text → Outcome SerialRead
send_wire_command port label wire prefixes =
    if_sent port.sending (codes "failed to write serial command " ++ label)
      (codes "failed to flush serial port")
      (ended port.read_fails (collect (matches_expected_response wire prefixes) port.lines))

unfoldable pub send_command_collect : Window → ElecraftCommand → Outcome SerialRead
unfolding send_wire_command
send_command_collect port command =
    send_wire_command port command.label command.wire (expected_prefixes command)

unfoldable pub send_command : Window → ElecraftCommand → Outcome Text
unfolding send_command_collect
send_command port command = elim (send_command_collect port command) [
  | failed e ↦ failed e
  | done r ↦ done r.response
]

-- The response to a command is the first line that is its echo or has an expected prefix and ends with a
-- semicolon, the lines before it are collected in their order, and there is an error exactly if the
-- command was not sent or no such line came.
pub send_command_collect-Answers :
    (port : Window) (command : ElecraftCommand)
    → Answers
        (matches_expected_response command.wire (expected_prefixes command))
        port
        (send_command_collect port command)
unfolding send_command_collect
send_command_collect-Answers port command =
    if_sent-Answers (matches_expected_response command.wire (expected_prefixes command)) port _ _
