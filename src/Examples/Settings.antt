-- ===== src/Examples/Settings.antt =====
-- A whole configuration that passes.
use elecraft_genius_bridge.Config.Device as Device
use elecraft_genius_bridge.Config.Operational as Operational
use elecraft_genius_bridge.Config.Device.{default_device}
use elecraft_genius_bridge.Config.Operational.{default_operational}
use elecraft_genius_bridge.Config.Checks.{
  IpAddr, v4, is_lan_or_loopback_or_cgnat, validate_nonempty_token,
}
use elecraft_genius_bridge.Config.Emulators.{
  default_pgxl, default_tgxl, validate_pgxl, validate_tgxl,
}
use elecraft_genius_bridge.Config.FlexInjection.{
  FlexInjectionConfig, default_flex_injection, validate_flex_injection, validate_advertised,
  validate_rest, validate_timing, validate_status_profile, parse_ip,
}
use elecraft_genius_bridge.Config.Whole.{BridgeConfig, validate_all, validate_metrics}
use elecraft_genius_bridge.Config.Checked.{IsSane, validate_all-IsSane}
use elecraft_genius_bridge.Common.{
  Option, Text, codes, false, if◌then◌else◌, is_whitespace, none, refl, some, text_eq, trim,
  trim_end_matches, trim_start_matches, true, ◌is◌, ◌≡◌,
}

-- Two addresses that the parser knows.
abbrev parse : Text → Option IpAddr
parse t =
    if t is "192.168.1.30"
    then some (v4 192 168 1 30)
    else if t is "127.0.0.1"
    then some (v4 127 0 0 1)
    else none

abbrev flex : FlexInjectionConfig
flex = record default_flex_injection { enabled = true; radio_ip = codes "192.168.1.30" }

abbrev config : BridgeConfig
config = record {
  server_bind_ip = codes "127.0.0.1";
  pgxl = default_pgxl;
  tgxl = default_tgxl;
  kpa500 = record default_device { com_port = codes "COM21" };
  kat500 = record default_device { com_port = codes "COM8" };
  transcript_rotate_bytes = 1048576;
  metrics = record { enabled = false; bind_ip = codes "127.0.0.1"; port = 9160 };
  verify_delay_ms = 200;
  operational = default_operational;
  flex_injection = flex;
}

passes : validate_all parse config ≡ none
unfolding validate_all validate_metrics validate_pgxl validate_tgxl validate_flex_injection
    validate_advertised validate_rest validate_timing validate_status_profile parse_ip
    validate_nonempty_token is_lan_or_loopback_or_cgnat Device.validate Operational.validate text_eq
    trim trim_start_matches trim_end_matches is_whitespace
passes = refl

validate_all-IsSane_example : IsSane parse flex
validate_all-IsSane_example = validate_all-IsSane parse config passes refl
