-- ===== src/Kpa500/Response.antt =====
-- `parse_kpa500_response`: what a line of the amplifier does to the shared `AmpState`. The warnings about
-- rejected values are log output and left out.
pub mod Agreement
pub mod Operate
pub mod Untouched
use elecraft_genius_bridge.Bridge.Float.{Float32}
use elecraft_genius_bridge.Bridge.Amp.{AmpState, AmpOperatingState, standby, operate, fault}
use elecraft_genius_bridge.Common.{
  Bool, Option, Text, [], codes, false, if_let, if◌then◌else◌, is_empty, leb, none, parse_signed,
  parse_nat, payload, show_nat, some, split_whitespace, trim, true, u16_max, ℕ, ◌&&◌, ◌++◌, ◌==◌,
  ◌is◌, ◌∷◌,
}

module _ (fl : Float32) where
  open fl use {Float, decimal, from_u16, from_i16, div}

  abbrev pub Amp : Type 0
  Amp = AmpState Float

  set_firmware : Amp → Text → Amp
  set_firmware a raw = if is_empty raw then a else record a { firmware_version = some raw }

  set_serial : Amp → Text → Amp
  set_serial a raw = if is_empty raw then a else record a { serial_number = some raw }

  unfoldable pub set_operate : Amp → Text → Amp
  set_operate a raw =
      if raw is "0"
      then record a { operate = false; state = standby }
      else if raw is "1"
      then record a { operate = true; state = operate }
      else a

  set_power : Amp → Text → Amp
  set_power a raw = elim (parse_nat u16_max raw) [
    | none ↦ a
    | some power ↦ if leb power 1000 then record a { forward_power_watts = from_u16 power } else a
  ]

  unfoldable pub parse_kpa_swr : Text → Option Float
  parse_kpa_swr raw = elim (parse_nat u16_max raw) [
    | none ↦ none
    | some value ↦
        if value == 0
        then some (decimal 1 0)
        else if leb 10 value && leb value 990
        then some (div (from_u16 value) (decimal 10 0))
        else none
  ]

  set_swr : Amp → Text → Amp
  unfolding parse_kpa_swr
  set_swr a raw = elim (parse_kpa_swr raw) [ none ↦ a | some swr ↦ record a { swr = swr } ]

  unfoldable pub parse_power_swr : Amp → Text → Amp
  unfolding set_power set_swr
  parse_power_swr a raw = elim (split_whitespace raw) [
    | [] ↦ a
    | power ∷ rest ↦ elim rest [ [] ↦ a | swr ∷ more ↦ set_swr (set_power a power) swr ]
  ]

  -- `(-40..=150).contains(&value)`
  abbrev temperature_in_range : Bool → ℕ → Bool
  temperature_in_range negative n = if negative then leb n 40 else leb n 150

  unfoldable pub parse_temperature : Amp → Text → Amp
  parse_temperature a raw = elim (parse_signed 32767 raw) [
    | none ↦ a
    | some value ↦
        if temperature_in_range value.0 value.1
        then record a { temperature_c = from_i16 value.0 value.1 }
        else a
  ]

  set_volts : Amp → Text → Amp
  set_volts a raw = elim (parse_nat u16_max raw) [
    | none ↦ a
    | some value ↦
        if leb value 999
        then record a { pa_voltage_volts = div (from_u16 value) (decimal 10 0) }
        else a
  ]

  set_current : Amp → Text → Amp
  set_current a raw = elim (parse_nat u16_max raw) [
    | none ↦ a
    | some value ↦
        if leb value 999
        then record a { pa_current_amps = div (from_u16 value) (decimal 10 0) }
        else a
  ]

  unfoldable pub parse_volts_current : Amp → Text → Amp
  unfolding set_volts set_current
  parse_volts_current a raw = elim (split_whitespace raw) [
    | [] ↦ a
    | volts ∷ rest ↦ elim rest [ [] ↦ a | current ∷ more ↦ set_current (set_volts a volts) current ]
  ]

  unfoldable pub parse_fault : Amp → Text → Amp
  parse_fault a raw = elim (parse_nat u16_max raw) [
    | none ↦ a
    | some code ↦
        if code == 0
        then record a {
          fault = none;
          meffa = codes "OK";
          state = if a.operate then operate else standby;
        }
        else record a { state = fault; fault = some (codes "KPA500 fault " ++ show_nat code) }
  ]

  unfoldable pub parse_fault_speaker : Amp → Text → Amp
  parse_fault_speaker a raw =
      if trim raw is "0"
      then record a { fault_speaker_on = some false }
      else if trim raw is "1"
      then record a { fault_speaker_on = some true }
      else a

  parse_trimmed : Text → Amp → Amp
  parse_trimmed r a = if_let (payload (codes "^RVM") r) (set_firmware a) (
      if_let (payload (codes "^SN") r) (set_serial a) (
        if_let (payload (codes "^OS") r) (set_operate a) (
          if_let (payload (codes "^WS") r) (parse_power_swr a) (
            if_let (payload (codes "^TM") r) (parse_temperature a) (
              if_let (payload (codes "^VI") r) (parse_volts_current a) (
                if_let (payload (codes "^FL") r) (parse_fault a)
                  (if_let (payload (codes "^SP") r) (parse_fault_speaker a) a)))))))

  unfoldable pub parse_kpa500_response : Text → Amp → Amp
  unfolding parse_trimmed set_firmware set_serial set_operate parse_power_swr parse_temperature
      parse_volts_current parse_fault parse_fault_speaker
  parse_kpa500_response response a = parse_trimmed (trim response) a
