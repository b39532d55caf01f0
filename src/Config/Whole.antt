-- ===== src/Config/Whole.antt =====
-- `BridgeConfig::validate`: the sections that it looks at, and the order of the checks.
use elecraft_genius_bridge.Config.Checks.{
  ConfigError, device_invalid, operational_invalid, IpAddr, check, validate_port, first_error,
}
use elecraft_genius_bridge.Config.Device as Device
use elecraft_genius_bridge.Config.Operational as Operational
use elecraft_genius_bridge.Config.Emulators.{PgxlConfig, TgxlConfig, validate_pgxl, validate_tgxl}
use elecraft_genius_bridge.Config.FlexInjection.{FlexInjectionConfig, validate_flex_injection}
use elecraft_genius_bridge.Common.{
  Bool, Option, String, Text, codes, if◌then◌else◌, is_some, none, not, some, ℕ, ◌++◌, ◌==◌, [],
  ◌∷◌, List,
}

pub record MetricsConfig : Type 0 where
  pub enabled : Bool
  pub bind_ip : Text
  pub port : ℕ

-- What validation reads: of the server, control and logging sections one entry each.
pub record BridgeConfig : Type 0 where
  pub server_bind_ip : Text
  pub pgxl : PgxlConfig
  pub tgxl : TgxlConfig
  pub kpa500 : Device.SerialDeviceConfig
  pub kat500 : Device.SerialDeviceConfig
  pub transcript_rotate_bytes : ℕ
  pub metrics : MetricsConfig
  pub verify_delay_ms : ℕ
  pub operational : Operational.OperationalConfig
  pub flex_injection : FlexInjectionConfig

abbrev pub of_device : Option Device.Invalid → Option ConfigError
of_device none = none
of_device (some e) = some (device_invalid e)

abbrev pub of_operational : Option Operational.Invalid → Option ConfigError
of_operational none = none
of_operational (some e) = some (operational_invalid e)

module _ (parse : Text → Option IpAddr) where
  abbrev pub check_address : String → Text → Option ConfigError
  check_address name value =
      check (is_some (parse value)) (codes name ++ (codes " is not an IP address: " ++ value))

  unfoldable pub validate_metrics : MetricsConfig → Option ConfigError
  validate_metrics m =
      if m.enabled
      then first_error
          (check_address "metrics.bind_ip" m.bind_ip ∷ validate_port "metrics.port" m.port ∷ [])
      else none

  abbrev pub all_checks : BridgeConfig → List (Option ConfigError)
  all_checks c =
      check_address "server.bind_ip" c.server_bind_ip
      ∷ validate_port "pgxl.port" c.pgxl.port
      ∷ validate_port "tgxl.port" c.tgxl.port
      ∷ validate_pgxl c.pgxl
      ∷ validate_tgxl c.tgxl
      ∷ validate_metrics c.metrics
      ∷ validate_flex_injection parse c.flex_injection
      ∷ of_device (Device.validate (codes "kpa500") c.kpa500)
      ∷ of_device (Device.validate (codes "kat500") c.kat500)
      ∷ check (not (c.verify_delay_ms == 0)) (codes "control.verify_delay_ms must be > 0")
      ∷ of_operational (Operational.validate c.operational)
      ∷ check (not (c.transcript_rotate_bytes == 0))
          (codes "logging.transcript_rotate_bytes must be > 0")
      ∷ []

  unfoldable pub validate_all : BridgeConfig → Option ConfigError
  validate_all c = first_error (all_checks c)
