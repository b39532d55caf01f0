-- ===== src/Tgxl/Status.antt =====
-- The status line of the emulated tuner.
use elecraft_genius_bridge.Bridge.Float.{Float32}
use elecraft_genius_bridge.Bridge.State.{BridgeState}
use elecraft_genius_bridge.Bridge.Band.{
  Band, unknown, m160, m80, m60, m40, m30, m20, m17, m15, m12, m10, m6,
}
use elecraft_genius_bridge.Bridge.Tuner.{TunerState, connection_state_str}
use elecraft_genius_bridge.Emulator.{
  format, bool_int, is_degraded, text_or, nat_or, watts_to_dbm, protocol_swr_value,
}
use elecraft_genius_bridge.Common.{
  Bool, Text, [], codes, false, if◌then◌else◌, is_some, show_nat, show_signed, some, true, ℕ, ◌++◌,
  ◌is◌, ◌||◌, ◌∷◌,
}

unfoldable pub band_number : Band → ℕ
band_number m160 = 160
band_number m80 = 80
band_number m60 = 60
band_number m40 = 40
band_number m30 = 30
band_number m20 = 20
band_number m17 = 17
band_number m15 = 15
band_number m12 = 12
band_number m10 = 10
band_number m6 = 6
band_number unknown = 0

module _ (fl : Float32) where
  unfoldable pub advertised_operate_from_tuner : TunerState (fl.Float) → Bool → Text → Bool
  advertised_operate_from_tuner tuner aethersdr_compat control_profile =
      if control_profile is "control_ready"
        || control_profile is "verbose_control"
        || control_profile is "tgxl_control_ready"
        || control_profile is "tgxl_verbose_control"
      then true
      else if aethersdr_compat
      then false
      else tuner.operate

  unfoldable pub status_body_from_state : BridgeState fl → Bool → Text → Text
  unfolding band_number advertised_operate_from_tuner
  status_body_from_state state aethersdr_compat control_profile =
      let tuner = state.tuner in
      let fwd = watts_to_dbm fl tuner.forward_power_watts in
      let peak = fwd in
      let most = fl.max_f fwd (fl.decimal 0 1) in
      let swr = protocol_swr_value fl tuner.swr in
      let degraded = is_degraded tuner.connection_state in
      let operate = advertised_operate_from_tuner tuner aethersdr_compat control_profile in
      let frequency_mhz = fl.mhz (nat_or state.radio_context.frequency_hz 0) in
      let band = show_nat (band_number state.radio_context.band) in
      let flex = text_or state.radio_context.radio_nickname (codes "FlexRadio") in
      let mode = show_nat (bool_int (is_some state.radio_context.frequency_hz)) in
      let ant = show_nat (nat_or tuner.selected_antenna 0) in
      let bypass = show_nat (bool_int tuner.bypass) in
      let status = format (
        ("fwd=", fl.fixed 2 fwd)
        ∷ (" peak=", fl.fixed 2 peak)
        ∷ (" max=", fl.fixed 2 most)
        ∷ (" swr=", fl.fixed 4 swr)
        ∷ (" pttA=0 bandA=", band)
        ∷ (" modeA=", mode)
        ∷ (" flexA=", flex)
        ∷ (" freqA=", frequency_mhz)
        ∷ (" bypassA=", bypass)
        ∷ (" bypassRxA=0 antA=", ant)
        ∷ (
          " pttB=0 bandB=0 modeB=0 flexB= freqB=0.000 bypassB=0 bypassRxB=0 antB=0 state=",
          show_nat (bool_int operate),
        )
        ∷ (" active=1 tuning=", show_nat (bool_int (tuner.tuning || degraded)))
        ∷ (" bypass=", bypass)
        ∷ (" ag=0 relayC1=", show_signed tuner.relay_c1)
        ∷ (" relayL=", show_signed tuner.relay_l)
        ∷ (" relayC2=", show_signed tuner.relay_c2)
        ∷ []) in
      if aethersdr_compat
      then status
      else status
        ++ format (
            (" connection_state=", codes (connection_state_str tuner.connection_state))
            ∷ (" fault=", text_or tuner.fault (if degraded then codes "device_degraded" else []))
            ∷ [])

  -- The line, and the state with the operate flag that it shows.
  unfoldable pub status_line : ℕ → BridgeState fl → Bool → Text → Text × BridgeState fl
  status_line seq state aethersdr_compat control_profile =
      let body = status_body_from_state state aethersdr_compat control_profile in
      let operate = advertised_operate_from_tuner state.tuner aethersdr_compat control_profile in
      (
        format (("S", show_nat seq) ∷ ("|status ", body) ∷ ("\n", []) ∷ []),
        record state {
          flex_injection = record (state.flex_injection) {
            last_advertised_tgxl_operate = some operate;
          };
        },
      )

  unfoldable pub state_push_from_tuner : BridgeState fl → Bool → Text → Text
  state_push_from_tuner state aethersdr_compat control_profile = format (
      ("S0|status ", status_body_from_state state aethersdr_compat control_profile)
      ∷ ("\n", [])
      ∷ [])
