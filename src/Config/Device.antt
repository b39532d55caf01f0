-- ===== src/Config/Device.antt =====
-- `SerialDeviceConfig`: one section for the KPA500, one for the KAT500.
use elecraft_genius_bridge.Common.{
  Bool, Option, Text, [], false, if◌then◌else◌, is_empty, none, not, some, trim, true, ℕ, ◌&&◌,
  ◌==◌,
}

pub record SerialDeviceConfig : Type 0 where
  pub enabled : Bool
  pub com_port : Text
  pub baud : ℕ
  pub polling_interval_ms : ℕ
  pub mock : Bool
  pub dry_run : Bool
  pub allow_control : Bool
  pub allow_rf_risk : Bool
  pub follow_flex_frequency : Bool
  pub follow_flex_band : Bool

-- The messages of `ConfigError::Invalid`; the prefix names the section.
pub data Invalid : Type 0 where
  com_port_required baud_zero polling_interval_zero : Text → Invalid

abbrev pub default_device : SerialDeviceConfig
default_device = record {
  enabled = true;
  com_port = [];
  baud = 38400;
  polling_interval_ms = 1000;
  mock = true;
  dry_run = true;
  allow_control = false;
  allow_rf_risk = false;
  follow_flex_frequency = false;
  follow_flex_band = false;
}

-- `none` is `Ok(())`.
unfoldable pub validate : Text → SerialDeviceConfig → Option Invalid
validate prefix c =
    if c.enabled && not c.mock && is_empty (trim c.com_port)
    then some (com_port_required prefix)
    else if c.baud == 0
    then some (baud_zero prefix)
    else if c.polling_interval_ms == 0
    then some (polling_interval_zero prefix)
    else none
