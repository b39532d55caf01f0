-- ===== src/Kpa500/Send.antt =====
-- `send_command`: a command, and the response that it awaits. Here the echo of the command is no response.
use elecraft_genius_bridge.Bridge.Serial.{Outcome, failed, done, Window, if_sent}
use elecraft_genius_bridge.Bridge.Serial.Await.{
  SerialRead, collect, ended, Answers, if_sent-Answers,
}
use elecraft_genius_bridge.Kpa500.Command.{ElecraftCommand}
use elecraft_genius_bridge.Common.{
  Bool, List, Text, [], any_prefix, codes, if◌then◌else◌, ◌++◌, ◌is◌, ◌∷◌,
}

unfoldable pub expected_prefixes : ElecraftCommand → List Text
expected_prefixes command =
    if command.label is "read_firmware"
    then codes "^RVM" ∷ []
    else if command.label is "read_serial_number"
    then codes "^SN" ∷ []
    else if command.label is "read_operate_status"
    then codes "^OS" ∷ []
    else if command.label is "read_power_swr"
    then codes "^WS" ∷ []
    else if command.label is "read_temperature"
    then codes "^TM" ∷ []
    else if command.label is "read_volts_current"
    then codes "^VI" ∷ []
    else if command.label is "read_fault"
    then codes "^FL" ∷ []
    else []

unfoldable pub matches_expected_response : List Text → Text → Bool
matches_expected_response prefixes response = any_prefix prefixes response

unfoldable pub send_command_collect : Window → ElecraftCommand → Outcome SerialRead
send_command_collect port command =
    if_sent port.sending (codes "failed to write serial command " ++ command.label)
      (codes "failed to flush serial port")
      (ended port.read_fails
        (collect (matches_expected_response (expected_prefixes command)) port.lines))

unfoldable pub send_command : Window → ElecraftCommand → Outcome Text
unfolding send_command_collect
send_command port command = elim (send_command_collect port command) [
  | failed e ↦ failed e
  | done r ↦ done r.response
]

-- The response to a query is the first line that has an expected prefix and ends with a semicolon, the
-- lines before it are collected in their order, and there is an error exactly if the command was not
-- sent or no such line came.
pub amp_response-Answers :
    (port : Window) (command : ElecraftCommand)
    → Answers
        (matches_expected_response (expected_prefixes command))
        port
        (send_command_collect port command)
unfolding send_command_collect
amp_response-Answers port command =
    if_sent-Answers (matches_expected_response (expected_prefixes command)) port _ _
