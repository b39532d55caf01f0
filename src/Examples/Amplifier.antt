-- ===== src/Examples/Amplifier.antt =====
-- Commands to the emulated amplifier, and the driver's controls.
use elecraft_genius_bridge.Bridge.Float.{hundredths}
use elecraft_genius_bridge.Bridge.Serial.{sent, done}
use elecraft_genius_bridge.Protocol.{response_line}
use elecraft_genius_bridge.Kpa500.Command.{Kpa500Settings}
use elecraft_genius_bridge.Kpa500.Control.{
  ControlPort, process_desired_control, verifies, clear_fault,
}
use elecraft_genius_bridge.Kpa500.Control.Verified.{
  amp_control_wires, verifies_standby_iff, clear_fault-fails,
}
use elecraft_genius_bridge.Pgxl.Status.{status_field, shown_state}
use elecraft_genius_bridge.Pgxl.Command.{handle_command}
use elecraft_genius_bridge.Pgxl.Shown.{status_noted}
use elecraft_genius_bridge.Pgxl.Mailbox.{asked, handle_command-asked, amp_request_carried}
use elecraft_genius_bridge.Examples.Follow.{changing}
use elecraft_genius_bridge.Examples.Control.{line}
use elecraft_genius_bridge.Common.{
  Text, [], codes, false, is_whitespace, none, refl, some, text_eq, trim, trim_end_matches,
  trim_start_matches, true, ◌↔◌, ◌∷◌, ◌≡◌, ◌≢◌,
}

abbrev pub amp_port : ControlPort
amp_port = record { sending = sent; status = line (codes "^OS1;") }

abbrev amp_settings : Kpa500Settings
amp_settings = record {
  dry_run = false;
  allow_control = true;
  allow_rf_risk = true;
  follow_flex_band = false;
}

amp_control_wires_example :
    let g = record changing { desired = record (changing.desired) { amp_operate = some true } } in
    let r = process_desired_control hundredths amp_settings amp_port g in
    (r.wires ≡ codes "^OS1;" ∷ []) × (r.state.desired ≡ changing.desired)
amp_control_wires_example =
    amp_control_wires hundredths amp_settings amp_port
      (record changing { desired = record (changing.desired) { amp_operate = some true } })

verifies_standby_iff_example :
    (verifies hundredths (codes "^OS7;") false ≡ true) ↔ (codes "7" ≢ codes "1")
unfolding trim trim_start_matches trim_end_matches is_whitespace
verifies_standby_iff_example = verifies_standby_iff hundredths (codes "^OS7;") (codes "7") refl

clear_fault-fails_example :
    ((clear_fault hundredths amp_settings false (done (line (codes "^FL00;"))) changing).0 ≢ none)
    × ((clear_fault hundredths amp_settings false (done (line (codes "^FL00;"))) changing).1
        ≡ changing)
clear_fault-fails_example =
    clear_fault-fails hundredths amp_settings (done (line (codes "^FL00;"))) changing

status_noted_example :
    let h = handle_command hundredths 100 7 (codes "status") true (codes "default") changing in
    (body : Text) × (h.0.response ≡ response_line 7 0 body)
    × (status_field body (codes "state")
        ≡ some (codes (shown_state hundredths 100 changing.amp (codes "default"))))
    × (h.1.flex_injection.last_pgxl_status_state
        ≡ some (codes (shown_state hundredths 100 changing.amp (codes "default"))))
    × (h.1.flex_injection.last_pgxl_status_state_at_ms ≡ some 100)
status_noted_example = status_noted hundredths 100 7 true (codes "default") changing

handle_command-asked_example :
    (handle_command hundredths 100 7 (codes "operate") true (codes "default") changing).1.desired
    ≡ record (changing.desired) { amp_operate = some true }
unfolding asked text_eq
handle_command-asked_example =
    handle_command-asked hundredths 100 7 true (codes "default") (codes "operate") changing

amp_request_carried_example :
    let g' =
      (handle_command hundredths 100 7 (codes "standby") true (codes "default") changing).1 in
    let r = process_desired_control hundredths amp_settings amp_port g' in
    (r.wires ≡ codes "^OS0;" ∷ []) × (r.state.desired ≡ changing.desired)
amp_request_carried_example =
    amp_request_carried hundredths 100 7 true (codes "default") amp_settings amp_port false changing
