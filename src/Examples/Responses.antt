-- ===== src/Examples/Responses.antt =====
-- Responses among other lines.
use elecraft_genius_bridge.Bridge.Serial.{sent, Window}
use elecraft_genius_bridge.Bridge.Serial.Await.{Answers}
use elecraft_genius_bridge.Kat500.Command as Kat500
use elecraft_genius_bridge.Kat500.Send as Kat500Send
use elecraft_genius_bridge.Kat500.Send.{send_command_collect-Answers}
use elecraft_genius_bridge.Common.{[], codes, false, true, ◌∷◌}

abbrev tune_poll : Window
tune_poll = record {
  sending = sent;
  lines = codes "VSWR 1.2;" ∷ codes "TP0;" ∷ [];
  read_fails = false;
}

send_command_collect-Answers_example :
    Answers
      (Kat500Send.matches_expected_response Kat500.cmd_tune_poll.wire
        (Kat500Send.expected_prefixes Kat500.cmd_tune_poll))
      tune_poll
      (Kat500Send.send_command_collect tune_poll Kat500.cmd_tune_poll)
send_command_collect-Answers_example = send_command_collect-Answers tune_poll Kat500.cmd_tune_poll

abbrev operate_status : Window
operate_status = record { sending = sent; lines = codes "^SP0;" ∷ []; read_fails = true }
