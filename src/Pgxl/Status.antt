-- ===== src/Pgxl/Status.antt =====
-- The status of the emulated amplifier.
use elecraft_genius_bridge.Bridge.Float.{Float32}
use elecraft_genius_bridge.Bridge.State.{BridgeState}
use elecraft_genius_bridge.Bridge.Amp.{AmpState, AmpOperatingState-discrete, fault, pgxl_state}
use elecraft_genius_bridge.Bridge.Tuner.{connection_state_str}
use elecraft_genius_bridge.Emulator.{format, is_degraded, text_or, watts_to_dbm, protocol_swr_value}
use elecraft_genius_bridge.Common.{
  Bool, List, Option, String, Text, [], codes, decides, false, if◌then◌else◌, is_empty, is_some,
  leb, none, not, show_nat, some, split_once, split_whitespace, text_eq, trim, ℕ, ◌&&◌, ◌++◌, ◌-◌,
  ◌==◌, ◌is◌, ◌||◌, ◌∷◌,
}

abbrev pub version : Text
version = codes "0.1.0-egb-pgxl"

-- `status_field`: the value of the first word `key=value`.
unfoldable pub find_field : Text → List Text → Option Text
find_field key [] = none
find_field key (token ∷ rest) = elim (split_once b'=' token) [
  | none ↦ find_field key rest
  | some (field, value) ↦ if text_eq field key then some value else find_field key rest
]

unfoldable pub status_field : Text → Text → Option Text
unfolding find_field
status_field body key = find_field key (split_whitespace body)

-- Whether the last successful poll is at most ten seconds old.
abbrev is_recent : Option ℕ → ℕ → Bool
is_recent none now = false
is_recent (some poll) now = leb poll now && leb (now - poll) 10000

module _ (fl : Float32) where
  unfoldable pub amp_has_recent_poll : ℕ → AmpState (fl.Float) → Bool
  amp_has_recent_poll now amp =
      if amp.runtime.poll_success_count == 0
      then false
      else is_recent amp.last_successful_poll_at now

  -- `amp.fault.is_some() || amp.state == AmpOperatingState::Fault`
  abbrev pub is_faulted : AmpState (fl.Float) → Bool
  is_faulted amp = is_some amp.fault || decides (AmpOperatingState-discrete amp.state fault)

  abbrev pub waits : Option Text → Bool
  waits none = false
  waits (some policy) = policy is "wait_for_first_kpa_poll"

  unfoldable pub advertised_state_from_amp : ℕ → AmpState (fl.Float) → String
  unfolding amp_has_recent_poll
  advertised_state_from_amp now amp =
      if not amp.first_poll_completed
        && waits amp.startup_state_policy
        && not (amp_has_recent_poll now amp)
      then "UNKNOWN"
      else if is_faulted amp
      then "FAULT"
      else pgxl_state amp.state

  unfoldable pub pgxl_meffa_value : AmpState (fl.Float) → Text
  pgxl_meffa_value amp =
      if is_faulted amp
      then amp.meffa
      else if amp.meffa is "UNKNOWN" || is_empty (trim amp.meffa)
      then codes "OK"
      else amp.meffa

  unfoldable pub pgxl_vac_value : AmpState (fl.Float) → ℕ
  pgxl_vac_value amp =
      if fl.le (fl.decimal 100 0) amp.pa_voltage_volts then fl.round_u16 amp.pa_voltage_volts else 0

  -- The state that the status shows.
  unfoldable pub shown_state : ℕ → AmpState (fl.Float) → Text → String
  shown_state now amp status_profile =
      if status_profile is "status_realistic_operate"
      then "OPERATE"
      else if status_profile is "status_realistic_standby"
      then "STANDBY"
      else advertised_state_from_amp now amp

  extra_fields : AmpState (fl.Float) → Text → Text
  extra_fields amp status_profile =
      if status_profile is "status_control_fields" || status_profile is "status_operate_capable"
      then codes " operate_capable=1 standby_capable=1"
      else if status_profile is "status_rich_metered"
          || status_profile is "status_realistic_operate"
          || status_profile is "status_realistic_standby"
      then format (
          (
            " operate_capable=1 standby_capable=1 control=1 fwd=",
            fl.fixed 1 amp.forward_power_watts,
          )
          ∷ (" rl=", fl.fixed 2 (protocol_swr_value fl amp.swr))
          ∷ (" drv=0.0 current=", fl.fixed 1 amp.pa_current_amps)
          ∷ (" voltage=", fl.fixed 1 amp.pa_voltage_volts)
          ∷ [])
      else if status_profile is "status_real_pgxl_like"
      then format (
          (" model=PowerGeniusXL serial_num=EGB-KPA500 firmware=", version)
          ∷ (" operate_capable=1 standby_capable=1", [])
          ∷ [])
      else []

  unfoldable pub status_body_from_amp : ℕ → AmpState (fl.Float) → Bool → Text → Text
  unfolding shown_state extra_fields
  status_body_from_amp now amp aethersdr_compat status_profile =
      let degraded = is_degraded amp.connection_state in
      let native = format (
        ("state=", codes (shown_state now amp status_profile))
        ∷ (" peakfwd=", fl.fixed 4 (watts_to_dbm fl amp.forward_power_watts))
        ∷ (" swr=", fl.fixed 4 (protocol_swr_value fl amp.swr))
        ∷ (" temp=", fl.fixed 1 amp.temperature_c)
        ∷ (" id=", fl.fixed 1 amp.pa_current_amps)
        ∷ (" vac=", show_nat (pgxl_vac_value amp))
        ∷ (" meffa=", pgxl_meffa_value amp ++ extra_fields amp status_profile)
        ∷ []) in
      if aethersdr_compat
      then native
      else native
        ++ format (
            (" fault=", text_or amp.fault (if degraded then codes "device_degraded" else []))
            ∷ (" connection_state=", codes (connection_state_str amp.connection_state))
            ∷ [])

  -- The body, and the state with the advertised state noted.
  unfoldable pub status_body : ℕ → BridgeState fl → Bool → Text → Text × BridgeState fl
  status_body now g aethersdr_compat status_profile = (
    status_body_from_amp now g.amp aethersdr_compat status_profile,
    record g {
      flex_injection = record (g.flex_injection) {
        last_advertised_pgxl_state = some (codes (advertised_state_from_amp now g.amp));
      };
    },
  )
