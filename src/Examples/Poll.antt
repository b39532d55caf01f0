-- ===== src/Examples/Poll.antt =====
-- A pass of queries, each answered by the same lines.
use elecraft_genius_bridge.Bridge.Float.{hundredths}
use elecraft_genius_bridge.Bridge.State.{BridgeState}
use elecraft_genius_bridge.Bridge.Tuner.{degraded}
use elecraft_genius_bridge.Bridge.Serial.{Window, sent}
use elecraft_genius_bridge.Kpa500.Command.{ElecraftCommand}
use elecraft_genius_bridge.Kpa500.Response.Agreement.{Agrees}
use elecraft_genius_bridge.Kpa500.Poll.{PortName, PollClock, any_response, poll_status_on_port}
use elecraft_genius_bridge.Kpa500.Poll.Missing.{IsComplete}
use elecraft_genius_bridge.Kpa500.Poll.Standing.{poll_status_on_port_lem}
use elecraft_genius_bridge.Examples.Follow.{changing}
use elecraft_genius_bridge.Examples.Amp.{amp}
use elecraft_genius_bridge.Common.{[], codes, false, none, refl, true, ◌↔◌, ◌∷◌, ◌≡◌}

abbrev name : PortName
name = record { com_port = codes "COM7"; baud = 38400 }

abbrev clock : PollClock
clock = record { now = 9000; elapsed = 210 }

-- In operate, with a fault cleared.
abbrev window : Window
window = record {
  sending = sent;
  lines =
      codes "^OS1;"
      ∷ codes "^WS0500 012;"
      ∷ codes "^TM040;"
      ∷ codes "^VI700 100;"
      ∷ codes "^FL00;"
      ∷ [];
  read_fails = false;
}

abbrev window_of : ElecraftCommand → Window
window_of command = window

abbrev amp_asked : BridgeState hundredths
amp_asked = record changing { amp = amp }

poll_status_on_port_lem_example :
    let r = poll_status_on_port hundredths name clock window_of amp_asked in
    Agrees hundredths r.1.amp
    × (r.1.desired ≡ changing.desired)
    × ((r.1.amp.connection_state ≡ degraded) ↔ (any_response r.0 ≡ false))
    × ((r.1.amp.first_poll_error ≡ none) ↔ IsComplete window_of)
    × (IsComplete window_of → r.1.amp.first_poll_completed ≡ true)
    × (¬ IsComplete window_of → r.1.amp.first_poll_completed ≡ amp.first_poll_completed)
poll_status_on_port_lem_example =
    poll_status_on_port_lem hundredths name clock window_of amp_asked
      (record { operates = λ e. cc; stands_by = λ e. refl })
