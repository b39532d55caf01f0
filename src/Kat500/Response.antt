-- ===== src/Kat500/Response.antt =====
-- `parse_kat500_response`: what a line of the tuner does to the shared `TunerState`. The warnings about
-- rejected values are log output and left out.
pub mod Capabilities
pub mod Tuning
pub mod Connected
pub mod Ranges
use elecraft_genius_bridge.Bridge.Float.{Float32}
use elecraft_genius_bridge.Bridge.Tuner.{TunerState}
use elecraft_genius_bridge.Common.{
  Bool, List, Option, String, Text, [], codes, false, if◌then◌else◌, is_empty, is_some, leb, none,
  parse_nat, show_nat, some, starts_with, strip_prefix, strip_suffix_char, text_eq, trim, true,
  u16_max, u32_max, u8_max, ◌&&◌, ◌++◌, ◌==◌, ◌||◌, ◌∷◌, refl, ◌≡◌, if_cases, if_let, if_let_cases,
  payload, ◌is◌,
}

-- `prefix` and the capability's value.
unfoldable pub capability_entry : Text → Text → Text
capability_entry key value = key ++ (codes "=" ++ value)

-- The first entry that starts with the key is replaced, or a new one goes to the end.
unfoldable pub set_capability_value : List Text → Text → Text → List Text
unfolding capability_entry
set_capability_value [] key value = capability_entry key value ∷ []
set_capability_value (existing ∷ rest) key value =
    if starts_with (key ++ codes "=") existing
    then capability_entry key value ∷ rest
    else existing ∷ set_capability_value rest key value

module _ (fl : Float32) where
  open fl use {Float, decimal, from_u16, parse, eq, le}

  abbrev Tuner : Type 0
  Tuner = TunerState Float

  set_firmware : Tuner → Text → Tuner
  set_firmware t raw = if is_empty raw then t else record t { firmware_version = some raw }

  set_serial : Tuner → Text → Tuner
  set_serial t raw = if is_empty (trim raw) then t else record t { serial_number = some (trim raw) }

  set_antenna : Tuner → Text → Tuner
  set_antenna t raw = elim (parse_nat u8_max raw) [
    | none ↦ t
    | some antenna ↦ if leb antenna 3 then record t { selected_antenna = some antenna } else t
  ]

  set_mode : Tuner → Text → Tuner
  set_mode t raw =
      if raw is "B"
      then record t {
        bypass = true;
        operate = false;
        capabilities = set_capability_value t.capabilities (codes "mode") (codes "bypass");
      }
      else if raw is "M" || raw is "A"
      then record t {
        operate = true;
        capabilities =
            set_capability_value t.capabilities (codes "mode")
              (if raw is "A" then codes "auto" else codes "manual");
      }
      else t

  set_tuning : Tuner → Text → Tuner
  set_tuning t raw =
      if raw is "0"
      then record t {
        tuning = false;
        capabilities = set_capability_value t.capabilities (codes "tune_power") (codes "0");
      }
      else if raw is "1"
      then record t {
        tuning = true;
        capabilities = set_capability_value t.capabilities (codes "tune_power") (codes "1");
      }
      else t

  set_fault : Tuner → Text → Tuner
  set_fault t raw = elim (parse_nat u16_max raw) [
    | none ↦ t
    | some code ↦ record t {
      fault = if code == 0 then none else some (codes "KAT500 fault " ++ show_nat code);
    }
  ]

  unfoldable pub parse_vswr : Tuner → Text → Tuner
  parse_vswr t raw = elim (parse raw) [
    | none ↦ t
    | some value ↦
        if eq value (decimal 0 0)
        then record t { swr = decimal 1 0 }
        else if le (decimal 1 0) value && le value (decimal 9999 2)
        then record t { swr = value }
        else t
  ]

  set_forward : Tuner → Text → Tuner
  set_forward t raw = elim (parse_nat u16_max raw) [
    | none ↦ t
    | some value ↦ if leb value 4095 then record t { forward_power_watts = from_u16 value } else t
  ]

  set_frequency : Tuner → Text → Tuner
  set_frequency t raw =
      if is_some (parse_nat u32_max (trim raw))
      then record t {
        capabilities = set_capability_value t.capabilities (codes "atu_frequency_khz") (trim raw);
      }
      else t

  set_band : Tuner → Text → Tuner
  set_band t raw = elim (parse_nat u8_max raw) [
    | none ↦ t
    | some value ↦
        if leb value 10
        then record t {
          capabilities = set_capability_value t.capabilities (codes "band_number") raw;
        }
        else t
  ]

  parse_trimmed : Text → Tuner → Tuner
  parse_trimmed r t = if_let (payload (codes "RV") r) (set_firmware t) (
      if_let (payload (codes "SN") r) (set_serial t) (
        if_let (payload (codes "AN") r) (set_antenna t) (
          if r is "BYPB;"
          then record t { bypass = true }
          else if r is "BYPN;"
          then record t { bypass = false }
          else if_let (payload (codes "MD") r) (set_mode t) (
              if_let (payload (codes "TP") r) (set_tuning t) (
                if_let (payload (codes "FLT") r) (set_fault t) (
                  if_let (payload (codes "VSWR ") r) (parse_vswr t) (
                    if_let (payload (codes "VFWD ") r) (set_forward t) (
                      if_let (payload (codes "F ") r) (set_frequency t)
                        (if_let (payload (codes "BN") r) (set_band t) t)))))))))

  unfoldable pub parse_kat500_response : Text → Tuner → Tuner
  unfolding parse_trimmed set_firmware set_serial set_antenna set_mode set_tuning set_fault
      parse_vswr set_forward set_frequency set_band
  parse_kat500_response response t = parse_trimmed (trim response) t

  -- What each kind of line makes of a tuner.
  record Cases {ℓ} (P : Tuner → Type ℓ) (r : Text) (t : Tuner) : Type ℓ where
    other : P t
    firmware : (raw : Text) → P (set_firmware t raw)
    serial : (raw : Text) → P (set_serial t raw)
    antenna : (raw : Text) → P (set_antenna t raw)
    bypass_on : P (record t { bypass = true })
    bypass_off : P (record t { bypass = false })
    mode : (raw : Text) → P (set_mode t raw)
    tuned : (raw : Text) → payload (codes "TP") r ≡ some raw → P (set_tuning t raw)
    fault : (raw : Text) → P (set_fault t raw)
    vswr : (raw : Text) → P (parse_vswr t raw)
    forward : (raw : Text) → P (set_forward t raw)
    frequency : (raw : Text) → P (set_frequency t raw)
    band : (raw : Text) → P (set_band t raw)

  parse_trimmed_cases {ℓ} :
      (P : Tuner → Type ℓ) (r : Text) (t : Tuner) → Cases P r t → P (parse_trimmed r t)
  unfolding parse_trimmed
  parse_trimmed_cases P r t c =
      if_let_cases P _ _ _ (λ raw e. c.firmware raw)
        (if_let_cases P _ _ _ (λ raw e. c.serial raw)
          (if_let_cases P _ _ _ (λ raw e. c.antenna raw)
            (if_cases P _ _ _ c.bypass_on (
              if_cases P _ _ _ c.bypass_off (
                if_let_cases P _ _ _ (λ raw e. c.mode raw)
                  (if_let_cases P _ _ _ c.tuned (
                    if_let_cases P _ _ _ (λ raw e. c.fault raw)
                      (if_let_cases P _ _ _ (λ raw e. c.vswr raw)
                        (if_let_cases P _ _ _ (λ raw e. c.forward raw)
                          (if_let_cases P _ _ _ (λ raw e. c.frequency raw)
                            (if_let_cases P _ _ _ (λ raw e. c.band raw) c.other)))))))))))

  trimmed :
      (response : Text) (t : Tuner)
      → parse_kat500_response response t ≡ parse_trimmed (trim response) t
  unfolding parse_kat500_response
  trimmed response t = refl
