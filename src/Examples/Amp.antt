-- ===== src/Examples/Amp.antt =====
-- Lines of the amplifier.
use elecraft_genius_bridge.Bridge.Float.{hundredths}
use elecraft_genius_bridge.Bridge.Band.{m20, unknown}
use elecraft_genius_bridge.Bridge.Tuner.{connected}
use elecraft_genius_bridge.Bridge.Amp.{default_amp, AmpState, pgxl_state, operate}
use elecraft_genius_bridge.Bridge.Latency.Log.{record_kpa_state_transition}
use elecraft_genius_bridge.Bridge.Injection.{default_injection}
use elecraft_genius_bridge.Kpa500.Changes.{
  record_amp_poll_change, is_kpa_poll_telemetry_response, record_amp_poll_change_lem,
}
use elecraft_genius_bridge.Kpa500.Band.{
  kpa_band_follow_wire, kpa_band_follow_wire_lem, requested_bn_from_band_wire,
  confirmed_bn_from_band_response, bands, nth,
}
use elecraft_genius_bridge.Common.{Text, codes, false, none, some, true, ℕ, ◌≡◌, ◌≢◌, ◌⊎◌, trim}

kpa_band_follow_wire_lem_example :
    ((m20 ≡ unknown) × (kpa_band_follow_wire m20 ≡ none))
    ⊎ ((m20 ≢ unknown)
        × (wire : Text) × (bn : ℕ) × (kpa_band_follow_wire m20 ≡ some wire)
        × (requested_bn_from_band_wire wire ≡ some bn)
        × (confirmed_bn_from_band_response wire ≡ some bn)
        × (nth bands bn ≡ m20))
kpa_band_follow_wire_lem_example = kpa_band_follow_wire_lem m20

abbrev pub amp : AmpState ℕ
amp = record (default_amp 0 100) { connected = true; connection_state = connected }

-- The same amplifier in operate.
abbrev operating : AmpState ℕ
operating = record amp { operate = true; state = operate }

record_amp_poll_change_lem_example :
    let y = record_amp_poll_change hundredths amp operating (codes "^OS1;") 70 default_injection in
    ((is_kpa_poll_telemetry_response (trim (codes "^OS1;")) ≡ true)
      × ((amp.state ≢ operating.state) ⊎ (amp.operate ≢ operating.operate))
      × (y.kpa_state_transitions
          ≡ (record_kpa_state_transition default_injection.kpa_state_transitions
              (codes (pgxl_state amp.state))
              (codes (pgxl_state operating.state))
              70).0)
      × (y.last_kpa_state_change_detected_at_ms ≡ some 70)
      × (y.last_kpa_state_change_state ≡ y.last_advertised_pgxl_state)
      × (y.amplifier_reannounce_requested ≡ true))
    ⊎ (((is_kpa_poll_telemetry_response (trim (codes "^OS1;")) ≡ false)
          ⊎ ((amp.state ≡ operating.state) × (amp.operate ≡ operating.operate)))
        × (y.kpa_state_transitions ≡ default_injection.kpa_state_transitions)
        × (default_injection.amplifier_reannounce_requested ≡ true
            → y.amplifier_reannounce_requested ≡ true))
record_amp_poll_change_lem_example =
    record_amp_poll_change_lem hundredths amp operating (codes "^OS1;") 70 default_injection
