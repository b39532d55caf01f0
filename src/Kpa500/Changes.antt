-- ===== src/Kpa500/Changes.antt =====
-- `record_amp_poll_change`: what a change that a poll has found asks of the radio's session. Evidence
-- files are left out.
use elecraft_genius_bridge.Bridge.Float.{Float32}
use elecraft_genius_bridge.Bridge.Amp.{AmpState, AmpOperatingState-discrete, pgxl_state}
use elecraft_genius_bridge.Bridge.Injection.{FlexInjectionState}
use elecraft_genius_bridge.Bridge.Latency.Log.{record_kpa_state_transition}
use elecraft_genius_bridge.Common.{
  Bool, Option, Text, arith, codes, decides, false, if◌then◌else◌, none, not, saturating_add, some,
  starts_with, text_eq, trim, true, ℕ, ◌||◌, ◌≡◌, ◌≢◌, ◌⊎◌,
}

unfoldable pub is_kpa_poll_telemetry_response : Text → Bool
is_kpa_poll_telemetry_response response =
    starts_with (codes "^OS") response
    || starts_with (codes "^WS") response
    || starts_with (codes "^TM") response
    || starts_with (codes "^VI") response
    || starts_with (codes "^FL") response

abbrev same_bool : Bool → Bool → Bool
same_bool true b = b
same_bool false b = not b

-- Whether two faults are equal.
abbrev same_fault : Option Text → Option Text → Bool
same_fault none none = true
same_fault none (some f) = false
same_fault (some e) none = false
same_fault (some e) (some f) = text_eq e f

module _ (fl : Float32) where
  open fl use {Float, decimal, differs}

  unfoldable pub state_changed : AmpState Float → AmpState Float → Bool
  state_changed before after =
      not (decides (AmpOperatingState-discrete before.state after.state))
      || not (same_bool before.operate after.operate)

  unfoldable pub telemetry_changed : AmpState Float → AmpState Float → Bool
  unfolding state_changed
  telemetry_changed before after =
      state_changed before after
      || differs before.forward_power_watts after.forward_power_watts (decimal 1 1)
      || differs before.swr after.swr (decimal 1 2)
      || differs before.temperature_c after.temperature_c (decimal 1 1)
      || differs before.pa_voltage_volts after.pa_voltage_volts (decimal 1 1)
      || differs before.pa_current_amps after.pa_current_amps (decimal 5 2)
      || not (same_fault before.fault after.fault)
      || not (text_eq before.meffa after.meffa)

  reannounce : AmpState Float → Bool → FlexInjectionState → FlexInjectionState
  reannounce after changed x = record x {
    amplifier_reannounce_requested = true;
    amplifier_reannounce_request_count = saturating_add x.amplifier_reannounce_request_count 1;
    last_amplifier_reannounce_request_reason =
        some (if changed then codes "kpa_state_changed" else codes "kpa_telemetry_changed");
    last_advertised_pgxl_state = some (codes (pgxl_state after.state));
  }

  note_transition : AmpState Float → AmpState Float → ℕ → FlexInjectionState → FlexInjectionState
  note_transition before after now x = record x {
    last_kpa_state_change_detected_at_ms = some now;
    last_kpa_state_change_state = some (codes (pgxl_state after.state));
    kpa_state_transitions =
        (record_kpa_state_transition x.kpa_state_transitions (codes (pgxl_state before.state))
          (codes (pgxl_state after.state)) now).0;
  }

  unfoldable pub record_amp_poll_change :
      AmpState Float → AmpState Float → Text → ℕ → FlexInjectionState → FlexInjectionState
  unfolding reannounce note_transition
  record_amp_poll_change before after response now x =
      if not (is_kpa_poll_telemetry_response (trim response))
      then x
      else if not (telemetry_changed before after)
      then x
      else let changed = state_changed before after in
        let asked = reannounce after changed x in
        if changed then note_transition before after now asked else asked

  -- The log of transitions grows by the change, with its states and the time, exactly if the poll's
  -- response is telemetry and the operating state or the operate flag has changed, and then the radio is
  -- asked to announce the amplifier anew, and the states are the advertised ones. Otherwise the log stays
  -- as it is, and a request that is pending stays pending.
  pub record_amp_poll_change_lem :
      (before after : AmpState Float) (response : Text) (now : ℕ) (x : FlexInjectionState)
      → let y = record_amp_poll_change before after response now x in
        ((is_kpa_poll_telemetry_response (trim response) ≡ true)
          × ((before.state ≢ after.state) ⊎ (before.operate ≢ after.operate))
          × (y.kpa_state_transitions
              ≡ (record_kpa_state_transition x.kpa_state_transitions
                  (codes (pgxl_state before.state))
                  (codes (pgxl_state after.state))
                  now).0)
          × (y.last_kpa_state_change_detected_at_ms ≡ some now)
          × (y.last_kpa_state_change_state ≡ y.last_advertised_pgxl_state)
          × (y.amplifier_reannounce_requested ≡ true))
        ⊎ (((is_kpa_poll_telemetry_response (trim response) ≡ false)
              ⊎ ((before.state ≡ after.state) × (before.operate ≡ after.operate)))
            × (y.kpa_state_transitions ≡ x.kpa_state_transitions)
            × (x.amplifier_reannounce_requested ≡ true → y.amplifier_reannounce_requested ≡ true))
  unfolding record_amp_poll_change telemetry_changed
  record_amp_poll_change_lem before after response now x = ground arith
