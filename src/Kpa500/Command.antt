-- ===== src/Kpa500/Command.antt =====
-- The commands of the KPA500 and `ensure_can_send`, which `send_ackless_verified`, `set_operate_verified`,
-- `set_standby` and `clear_fault` put a command to. The queries and the band are sent without it.
use elecraft_genius_bridge.Common.{
  Bool, Option, Text, codes, false, if◌then◌else◌, none, not, some, true, ◌&&◌,
}

pub data CommandSafety : Type 0 where
  read_only state_change_safe rf_risk destructive_or_unknown : CommandSafety

pub record ElecraftCommand : Type 0 where
  pub label : Text
  pub wire : Text
  pub safety : CommandSafety
  pub verified : Bool
  pub expects_response : Bool
  pub requires_post_verify : Bool

-- What the guard reads of `Kpa500Settings`.
pub record Kpa500Settings : Type 0 where
  pub dry_run : Bool
  pub allow_control : Bool
  pub allow_rf_risk : Bool
  pub follow_flex_band : Bool

-- The messages of `anyhow::bail!`.
pub data Blocked : Type 0 where
  dry_run_blocked : Text → CommandSafety → Blocked
  requires_allow_control : Text → Blocked
  requires_allow_rf_risk : Text → Blocked

abbrev pub is_read_only : CommandSafety → Bool
is_read_only read_only = true
is_read_only _ = false

abbrev pub is_state_change_safe : CommandSafety → Bool
is_state_change_safe state_change_safe = true
is_state_change_safe _ = false

abbrev pub is_rf_risk : CommandSafety → Bool
is_rf_risk rf_risk = true
is_rf_risk _ = false

-- `none` is `Ok(())`.
unfoldable pub ensure_can_send : Kpa500Settings → ElecraftCommand → Option Blocked
ensure_can_send s command =
    if s.dry_run && not (is_read_only command.safety)
    then some (dry_run_blocked command.label command.safety)
    else if is_state_change_safe command.safety && not s.allow_control
    then some (requires_allow_control command.label)
    else if is_rf_risk command.safety && not s.allow_rf_risk
    then some (requires_allow_rf_risk command.label)
    else none

-- A query, answered by a response.
abbrev query : Text → Text → ElecraftCommand
query label wire = record {
  label = label;
  wire = wire;
  safety = read_only;
  verified = true;
  expects_response = true;
  requires_post_verify = false;
}

-- A control without an answer, marked for a query afterwards.
abbrev control : Text → Text → CommandSafety → ElecraftCommand
control label wire safety = record {
  label = label;
  wire = wire;
  safety = safety;
  verified = true;
  expects_response = false;
  requires_post_verify = true;
}

abbrev pub cmd_firmware : ElecraftCommand
cmd_firmware = query (codes "read_firmware") (codes "^RVM;")

abbrev pub cmd_serial_number : ElecraftCommand
cmd_serial_number = query (codes "read_serial_number") (codes "^SN;")

abbrev pub cmd_operate_status : ElecraftCommand
cmd_operate_status = query (codes "read_operate_status") (codes "^OS;")

abbrev pub cmd_power_swr : ElecraftCommand
cmd_power_swr = query (codes "read_power_swr") (codes "^WS;")

abbrev pub cmd_temperature : ElecraftCommand
cmd_temperature = query (codes "read_temperature") (codes "^TM;")

abbrev pub cmd_volts_current : ElecraftCommand
cmd_volts_current = query (codes "read_volts_current") (codes "^VI;")

abbrev pub cmd_fault : ElecraftCommand
cmd_fault = query (codes "read_fault") (codes "^FL;")

abbrev pub cmd_operate : ElecraftCommand
cmd_operate = control (codes "set_operate") (codes "^OS1;") rf_risk

abbrev pub cmd_standby : ElecraftCommand
cmd_standby = control (codes "set_standby") (codes "^OS0;") state_change_safe

abbrev pub cmd_clear_fault : ElecraftCommand
cmd_clear_fault = control (codes "clear_fault") (codes "^FLC;") destructive_or_unknown
