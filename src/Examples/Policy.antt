-- ===== src/Examples/Policy.antt =====
-- Sample configurations, from the safe defaults to a confirmed override.
use elecraft_genius_bridge.Config.Device.{SerialDeviceConfig, default_device}
use elecraft_genius_bridge.Config.Operational.{
  OperationalConfig, confirmation, default_operational, controls_confirmed,
}
use elecraft_genius_bridge.Kpa500.Command as Kpa500
use elecraft_genius_bridge.Kpa500.Command.{cmd_operate, cmd_clear_fault}
use elecraft_genius_bridge.Kat500.Command as Kat500
use elecraft_genius_bridge.Kat500.Command.{
  ensure_can_send_lem, cmd_autotune, cmd_bypass_on, cmd_bypass_off, cmd_fault, antenna_command,
  command_allowed, ensure_can_send_iff, ensure_can_send_lem,
}
use elecraft_genius_bridge.Egb.Policy.{
  BridgeConfig, operational_controls_confirmed, effective_control_policy, kpa500_settings,
  kat500_settings,
}
use elecraft_genius_bridge.Egb.Policy.Gates.{
  enabled_controls_pass, operate_leak_iff, autotune_leak_iff, clear_fault_leak_iff,
}
use elecraft_genius_bridge.Common.{false, inr, none, refl, text_eq, true, ◌≡◌}

-- The operator has confirmed standby and antenna switching, and nothing else.
abbrev standby_only : OperationalConfig
standby_only = record default_operational {
  enable_real_controls = true;
  enable_kpa_standby = true;
  enable_kat_antenna = true;
  confirm_real_hardware_control = confirmation;
}

-- A dry run whose raw RF-risk switch was left on.
abbrev rf_left_on : SerialDeviceConfig
rf_left_on = record default_device { allow_rf_risk = true }

abbrev leaky : BridgeConfig
leaky = record { kpa500 = rf_left_on; kat500 = rf_left_on; operational = standby_only }

abbrev operate_confirmed : BridgeConfig
operate_confirmed = record {
  kpa500 = default_device;
  kat500 = default_device;
  operational = record standby_only { enable_kpa_operate = true };
}

abbrev safe : BridgeConfig
safe = record {
  kpa500 = default_device;
  kat500 = default_device;
  operational = default_operational;
}

enabled_controls_pass_example :
    Kpa500.ensure_can_send (kpa500_settings operate_confirmed) cmd_operate ≡ none
enabled_controls_pass_example = (enabled_controls_pass operate_confirmed 2).0 (
    unfold effective_control_policy operational_controls_confirmed controls_confirmed text_eq in
    refl)

-- Operate passes the guard although the policy calls it disabled.
operate_leak_iff_example :
    (Kpa500.ensure_can_send (kpa500_settings leaky) cmd_operate ≡ none)
    × ((effective_control_policy leaky).effective_kpa_operate_enabled ≡ false)
operate_leak_iff_example = (operate_leak_iff leaky).1 (
    unfold operational_controls_confirmed controls_confirmed text_eq in
    (refl, refl, refl, refl, refl))

-- Autotune passes the guard although the policy calls it disabled.
autotune_leak_iff_example :
    (Kat500.ensure_can_send (kat500_settings leaky) cmd_autotune ≡ none)
    × ((effective_control_policy leaky).effective_kat_tune_enabled ≡ false)
autotune_leak_iff_example = (autotune_leak_iff leaky).1 (
    unfold operational_controls_confirmed controls_confirmed text_eq in
    (refl, refl, refl, refl, refl))

-- Clear fault passes the guard although the policy calls it disabled.
clear_fault_leak_iff_example :
    (Kpa500.ensure_can_send (kpa500_settings leaky) cmd_clear_fault ≡ none)
    × ((effective_control_policy leaky).effective_clear_fault_enabled ≡ false)
clear_fault_leak_iff_example = (clear_fault_leak_iff leaky).1 (
    unfold operational_controls_confirmed controls_confirmed text_eq in
    (λ e. refl, inr (refl, refl)))
