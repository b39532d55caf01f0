-- ===== src/Examples/Tuner.antt =====
-- Commands to the emulated tuner.
use elecraft_genius_bridge.Bridge.Float.{hundredths}
use elecraft_genius_bridge.Kat500.Desired.{process_desired_control}
use elecraft_genius_bridge.Tgxl.Command.{handle_command}
use elecraft_genius_bridge.Tgxl.Answers.{Answered, handle_command-Answered}
use elecraft_genius_bridge.Tgxl.Mailbox.{
  antenna, antenna_valid, request_text, Mails, handle_command-Mails,
}
use elecraft_genius_bridge.Tgxl.Requests.{Accepts, handle_command-request_text}
use elecraft_genius_bridge.Tgxl.Carried.{antenna_carried}
use elecraft_genius_bridge.Examples.Follow.{changing}
use elecraft_genius_bridge.Examples.Control.{shown, control_port, permissive}
use elecraft_genius_bridge.Common.{Text, [], arith, codes, refl, show_nat, true, ◌∷◌, ◌≡◌}

abbrev off : Text
off = codes "off"

handle_command-Answered_example :
    Answered hundredths 7
      (codes "activate ant=9")
      true
      off
      changing
      (handle_command hundredths 7 (codes "activate ant=9") true off 100 changing)
handle_command-Answered_example =
    handle_command-Answered hundredths 7 (codes "activate ant=9") true off changing 100

handle_command-Mails_example :
    Mails hundredths 7
      (codes "tune relay=2 move=-1")
      true
      off
      changing
      (handle_command hundredths 7 (codes "tune relay=2 move=-1") true off 100 changing)
handle_command-Mails_example =
    handle_command-Mails hundredths 7 (codes "tune relay=2 move=-1") true off changing 100

handle_command-request_text_example :
    Accepts hundredths 7 true off 100 changing (request_text (antenna 2)) (antenna 2)
handle_command-request_text_example =
    handle_command-request_text hundredths 7 true off 100 changing (antenna 2)
      (antenna_valid 2 (omega arith) (omega arith))

antenna_carried_example :
    (process_desired_control hundredths shown permissive control_port
      (handle_command hundredths 7 (request_text (antenna 2)) true off 100 changing).1).wires
    ≡ codes "AN2;" ∷ []
unfolding show_nat
antenna_carried_example =
    antenna_carried hundredths shown permissive control_port 7 true off 100 changing 2 (omega arith)
      (omega arith) refl
