-- ===== src/Config/Operational.antt =====
-- `OperationalConfig`: the operator's consent to control real hardware.
use elecraft_genius_bridge.Common.{
  Bool, Option, Text, [], arith, codes, false, if◌then◌else◌, none, not, some, text_eq, text_eq_iff,
  true, ◌&&◌, ◌||◌, ◌↔◌, ◌≡◌,
}

pub record OperationalConfig : Type 0 where
  pub enable_real_controls : Bool
  pub enable_kat_tune : Bool
  pub enable_kat_bypass : Bool
  pub enable_kat_antenna : Bool
  pub enable_kpa_standby : Bool
  pub enable_kpa_operate : Bool
  pub enable_clear_fault : Bool
  pub persist_rf_risk : Bool
  pub confirm_real_hardware_control : Text

abbrev pub default_operational : OperationalConfig
default_operational = record {
  enable_real_controls = false;
  enable_kat_tune = false;
  enable_kat_bypass = false;
  enable_kat_antenna = false;
  enable_kpa_standby = false;
  enable_kpa_operate = false;
  enable_clear_fault = false;
  persist_rf_risk = false;
  confirm_real_hardware_control = [];
}

abbrev pub confirmation : Text
confirmation = codes "I understand"

unfoldable pub controls_confirmed : OperationalConfig → Bool
controls_confirmed c = text_eq c.confirm_real_hardware_control confirmation

pub data Invalid : Type 0 where
  unconfirmed advanced_without_real_controls : Invalid

-- `none` is `Ok(())`.
unfoldable pub validate : OperationalConfig → Option Invalid
validate c =
    if c.enable_real_controls && not (controls_confirmed c)
    then some unconfirmed
    else if (c.enable_kpa_operate || c.enable_kat_tune || c.enable_clear_fault)
        && not c.enable_real_controls
    then some advanced_without_real_controls
    else none

-- A configuration passes exactly if real controls come with the literal confirmation, and the
-- RF-risk and advanced controls come with real controls.
pub validate_iff :
    (c : OperationalConfig)
    → (validate c ≡ none) ↔ (
        (c.enable_real_controls ≡ true → c.confirm_real_hardware_control ≡ confirmation)
        × (c.enable_kpa_operate ≡ true → c.enable_real_controls ≡ true)
        × (c.enable_kat_tune ≡ true → c.enable_real_controls ≡ true)
        × (c.enable_clear_fault ≡ true → c.enable_real_controls ≡ true))
unfolding validate controls_confirmed
validate_iff c = ground (arith, text_eq_iff c.confirm_real_hardware_control confirmation)
