-- ===== src/Kat500/Command.antt =====
-- The commands of the KAT500, `ensure_can_send`, which the antenna, the bypass and the tune are put to, and
-- `command_allowed`. The queries and the frequency are sent without `ensure_can_send`.
use elecraft_genius_bridge.Common.{
  Bool, Option, Text, arith, codes, false, if◌then◌else◌, leb, none, not, some, suc, true, zero, ℕ,
  ◌&&◌, ◌||◌, ◌↔◌, ◌≡◌, ◌≢◌, ◌⊎◌,
}

pub data CommandSafety : Type 0 where
  read_only state_change_safe rf_risk destructive_or_unknown : CommandSafety

pub record ElecraftCommand : Type 0 where
  pub label : Text
  pub wire : Text
  pub safety : CommandSafety
  pub verified : Bool

-- What the guard reads of `Kat500Settings`.
pub record Kat500Settings : Type 0 where
  pub dry_run : Bool
  pub allow_control : Bool
  pub allow_rf_risk : Bool
  pub follow_flex_frequency : Bool

-- The messages of `anyhow::bail!`.
pub data Blocked : Type 0 where
  dry_run_blocked : Text → CommandSafety → Blocked
  requires_allow_control : Text → Blocked
  requires_allow_rf_risk : Text → Blocked

abbrev pub is_read_only : CommandSafety → Bool
is_read_only read_only = true
is_read_only _ = false

abbrev pub is_state_change_safe : CommandSafety → Bool
is_state_change_safe state_change_safe = true
is_state_change_safe _ = false

abbrev pub is_rf_risk : CommandSafety → Bool
is_rf_risk rf_risk = true
is_rf_risk _ = false

-- `none` is `Ok(())`.
unfoldable pub ensure_can_send : Kat500Settings → ElecraftCommand → Option Blocked
ensure_can_send s command =
    if s.dry_run && not (is_read_only command.safety)
    then some (dry_run_blocked command.label command.safety)
    else if is_state_change_safe command.safety && not s.allow_control
    then some (requires_allow_control command.label)
    else if is_rf_risk command.safety && not s.allow_rf_risk
    then some (requires_allow_rf_risk command.label)
    else none

unfoldable pub command_allowed : Kat500Settings → ElecraftCommand → Bool
command_allowed s command =
    (is_read_only command.safety || not s.dry_run)
    && (not (is_state_change_safe command.safety) || s.allow_control)
    && (not (is_rf_risk command.safety) || s.allow_rf_risk)

abbrev command : Text → Text → CommandSafety → Bool → ElecraftCommand
command label wire safety verified = record {
  label = label;
  wire = wire;
  safety = safety;
  verified = verified;
}

abbrev pub cmd_null : ElecraftCommand
cmd_null = command (codes "null_wake") (codes ";") read_only true

abbrev pub cmd_firmware : ElecraftCommand
cmd_firmware = command (codes "read_firmware") (codes "RV;") read_only true

abbrev pub cmd_serial_number : ElecraftCommand
cmd_serial_number = command (codes "read_serial_number") (codes "SN;") read_only true

abbrev pub cmd_antenna_status : ElecraftCommand
cmd_antenna_status = command (codes "read_antenna") (codes "AN;") read_only true

abbrev pub cmd_bypass_status : ElecraftCommand
cmd_bypass_status = command (codes "read_bypass") (codes "BYP;") read_only true

abbrev pub cmd_mode : ElecraftCommand
cmd_mode = command (codes "read_mode") (codes "MD;") read_only true

abbrev pub cmd_tune_poll : ElecraftCommand
cmd_tune_poll = command (codes "read_tune_poll") (codes "TP;") read_only true

abbrev pub cmd_fault : ElecraftCommand
cmd_fault = command (codes "read_fault") (codes "FLT;") read_only true

abbrev pub cmd_vswr : ElecraftCommand
cmd_vswr = command (codes "read_vswr") (codes "VSWR;") read_only true

abbrev pub cmd_forward_adc : ElecraftCommand
cmd_forward_adc = command (codes "read_forward_adc") (codes "VFWD;") read_only true

abbrev pub cmd_autotune : ElecraftCommand
cmd_autotune = command (codes "autotune") (codes "T;") rf_risk true

abbrev pub cmd_frequency_context : ElecraftCommand
cmd_frequency_context =
    command (codes "set_frequency_context") (codes "F <kHz>;") state_change_safe false

abbrev pub cmd_bypass_on : ElecraftCommand
cmd_bypass_on = command (codes "set_bypass_on") (codes "BYPB;") state_change_safe true

abbrev pub cmd_bypass_off : ElecraftCommand
cmd_bypass_off = command (codes "set_bypass_off") (codes "BYPN;") state_change_safe true

abbrev pub cmd_antenna_select : ElecraftCommand
cmd_antenna_select = command (codes "set_antenna") (codes "AN<n>;") state_change_safe true

abbrev pub cmd_manual_tune : ElecraftCommand
cmd_manual_tune =
    command (codes "manual_tune_relay_move") (codes "UNVERIFIED_MANUAL_TUNE;")
      destructive_or_unknown false

unfoldable pub antenna_wire : ℕ → Text
antenna_wire (suc zero) = codes "AN1;"
antenna_wire (suc (suc zero)) = codes "AN2;"
antenna_wire (suc (suc (suc zero))) = codes "AN3;"
antenna_wire _ = codes "AN?;"

unfoldable pub antenna_command : ℕ → ElecraftCommand
unfolding antenna_wire
antenna_command antenna =
    command (codes "set_antenna") (antenna_wire antenna) state_change_safe (leb antenna 3)

-- The guard lets a command through exactly when `command_allowed` says so.
pub ensure_can_send_iff :
    (s : Kat500Settings) (c : ElecraftCommand)
    → (ensure_can_send s c ≡ none) ↔ (command_allowed s c ≡ true)
unfolding ensure_can_send command_allowed
ensure_can_send_iff s c = ground arith

-- Each refusal names its reason, and the reasons are tried in this order: the dry run, a missing
-- `allow_control`, a missing `allow_rf_risk`. A dry run lets read-only commands through and nothing else.
pub ensure_can_send_lem :
    (s : Kat500Settings) (c : ElecraftCommand)
    → ((c.safety ≡ read_only) × (ensure_can_send s c ≡ none))
      ⊎ ((c.safety ≢ read_only)
          × (s.dry_run ≡ true)
          × (ensure_can_send s c ≡ some (dry_run_blocked c.label c.safety)))
      ⊎ ((c.safety ≡ state_change_safe)
          × (s.dry_run ≡ false)
          × (ensure_can_send s c
              ≡ (if s.allow_control then none else some (requires_allow_control c.label))))
      ⊎ ((c.safety ≡ rf_risk)
          × (s.dry_run ≡ false)
          × (ensure_can_send s c
              ≡ (if s.allow_rf_risk then none else some (requires_allow_rf_risk c.label))))
      ⊎ ((c.safety ≡ destructive_or_unknown) × (s.dry_run ≡ false) × (ensure_can_send s c ≡ none))
unfolding ensure_can_send
ensure_can_send_lem s c = ground arith
