-- ===== src/Config/Emulators.antt =====
-- `PgxlConfig` and `TgxlConfig`: the sections of the two emulators.
use elecraft_genius_bridge.Config.Checks.{ConfigError, check, one_of, first_error}
use elecraft_genius_bridge.Common.{
  Bool, List, Option, String, Text, [], codes, false, true, ℕ, ◌++◌, ◌∷◌,
}

pub record PgxlConfig : Type 0 where
  pub enabled : Bool
  pub port : ℕ
  pub aethersdr_compat : Bool
  pub compat_profile : Text
  pub status_profile : Text
  pub strict_emulation : Bool
  pub startup_delay_ms : ℕ
  pub force_direct_connected_test : Bool

abbrev pub compat_profiles : List String
compat_profiles = "strict" ∷ "aethersdr" ∷ "smartsdr" ∷ "permissive" ∷ []

abbrev pub status_profiles : List String
status_profiles =
    "status_current" ∷ "status_control_fields" ∷ "status_realistic_operate"
    ∷ "status_realistic_standby" ∷ "status_operate_capable" ∷ "status_rich_metered"
    ∷ "status_real_pgxl_like" ∷ []

unfoldable pub validate_pgxl : PgxlConfig → Option ConfigError
validate_pgxl c = first_error (
    check (one_of compat_profiles c.compat_profile) (
      codes "pgxl.compat_profile must be one of strict, aethersdr, smartsdr, permissive; got "
      ++ c.compat_profile)
    ∷ check (one_of status_profiles c.status_profile) (
        codes
          "pgxl.status_profile must be one of status_current, status_control_fields, status_realistic_operate, status_realistic_standby, status_operate_capable, status_rich_metered, status_real_pgxl_like; got "
        ++ c.status_profile)
    ∷ [])

abbrev pub default_pgxl : PgxlConfig
default_pgxl = record {
  enabled = true;
  port = 9008;
  aethersdr_compat = false;
  compat_profile = codes "aethersdr";
  status_profile = codes "status_current";
  strict_emulation = false;
  startup_delay_ms = 0;
  force_direct_connected_test = false;
}

pub record TgxlConfig : Type 0 where
  pub enabled : Bool
  pub port : ℕ
  pub aethersdr_compat : Bool
  pub smartsdr_compat : Bool
  pub control_profile : Text
  pub strict_emulation : Bool
  pub startup_delay_ms : ℕ
  pub force_presence_test : Bool
  pub experimental_presence_refresh : Bool

abbrev pub control_profiles : List String
control_profiles =
    "readonly" ∷ "control_ready" ∷ "verbose_control" ∷ "tgxl_control_ready" ∷ "tgxl_verbose_control"
    ∷ []

unfoldable pub validate_tgxl : TgxlConfig → Option ConfigError
validate_tgxl c = check (one_of control_profiles c.control_profile) (
    codes "tgxl.control_profile must be one of readonly, control_ready, verbose_control; got "
    ++ c.control_profile)

abbrev pub default_tgxl : TgxlConfig
default_tgxl = record {
  enabled = true;
  port = 9010;
  aethersdr_compat = false;
  smartsdr_compat = false;
  control_profile = codes "readonly";
  strict_emulation = false;
  startup_delay_ms = 0;
  force_presence_test = false;
  experimental_presence_refresh = false;
}
