-- ===== src/Egb/Policy.antt =====
-- `effective_control_policy`: what the configuration lets the two drivers send.
use elecraft_genius_bridge.Config.Device.{SerialDeviceConfig}
use elecraft_genius_bridge.Config.Operational.{OperationalConfig, controls_confirmed}
use elecraft_genius_bridge.Kpa500.Command.{Kpa500Settings}
use elecraft_genius_bridge.Kat500.Command.{Kat500Settings}
pub mod Gates
pub mod Passes
use elecraft_genius_bridge.Common.{Bool, if◌then◌else◌, not, ◌&&◌, ◌||◌, String}

-- What the policy reads of `BridgeConfig`.
pub record BridgeConfig : Type 0 where
  pub kpa500 : SerialDeviceConfig
  pub kat500 : SerialDeviceConfig
  pub operational : OperationalConfig

unfoldable pub operational_controls_confirmed : BridgeConfig → Bool
operational_controls_confirmed cfg =
    cfg.operational.enable_real_controls && controls_confirmed cfg.operational

abbrev enabled_reason : Bool → String → String → String
enabled_reason enabled enabled_text disabled_text = if enabled then enabled_text else disabled_text

pub record EffectiveControlPolicy : Type 0 where
  pub raw_kpa_dry_run : Bool
  pub raw_kpa_allow_control : Bool
  pub raw_kpa_allow_rf_risk : Bool
  pub raw_kat_dry_run : Bool
  pub raw_kat_allow_control : Bool
  pub raw_kat_allow_rf_risk : Bool
  pub operational_enabled : Bool
  pub operational_confirmation_valid : Bool
  pub operational_override_active : Bool
  pub effective_kat_tune_enabled : Bool
  pub effective_kat_bypass_enabled : Bool
  pub effective_kat_antenna_enabled : Bool
  pub effective_kpa_standby_enabled : Bool
  pub effective_kpa_operate_enabled : Bool
  pub effective_clear_fault_enabled : Bool
  pub effective_kpa_dry_run : Bool
  pub effective_kpa_allow_control : Bool
  pub effective_kpa_allow_rf_risk : Bool
  pub effective_kat_dry_run : Bool
  pub effective_kat_allow_control : Bool
  pub effective_kat_allow_rf_risk : Bool
  pub kat_tune_reason : String
  pub kat_bypass_reason : String
  pub kat_antenna_reason : String
  pub kpa_standby_reason : String
  pub kpa_operate_reason : String
  pub clear_fault_reason : String

unfoldable pub effective_control_policy : BridgeConfig → EffectiveControlPolicy
unfolding operational_controls_confirmed
effective_control_policy cfg =
    let confirmed = operational_controls_confirmed cfg in
    let kat_tune =
      (not kat500.dry_run && kat500.allow_rf_risk) || (confirmed && op.enable_kat_tune) in
    let kat_bypass =
      (not kat500.dry_run && kat500.allow_control) || (confirmed && op.enable_kat_bypass) in
    let kat_antenna =
      (not kat500.dry_run && kat500.allow_control) || (confirmed && op.enable_kat_antenna) in
    let kpa_standby =
      (not kpa500.dry_run && kpa500.allow_control) || (confirmed && op.enable_kpa_standby) in
    let kpa_operate =
      (not kpa500.dry_run && kpa500.allow_rf_risk) || (confirmed && op.enable_kpa_operate) in
    let clear_fault = confirmed && op.enable_clear_fault in
    record {
      raw_kpa_dry_run = kpa500.dry_run;
      raw_kpa_allow_control = kpa500.allow_control;
      raw_kpa_allow_rf_risk = kpa500.allow_rf_risk;
      raw_kat_dry_run = kat500.dry_run;
      raw_kat_allow_control = kat500.allow_control;
      raw_kat_allow_rf_risk = kat500.allow_rf_risk;
      operational_enabled = op.enable_real_controls;
      operational_confirmation_valid = controls_confirmed op;
      operational_override_active = confirmed;
      effective_kat_tune_enabled = kat_tune;
      effective_kat_bypass_enabled = kat_bypass;
      effective_kat_antenna_enabled = kat_antenna;
      effective_kpa_standby_enabled = kpa_standby;
      effective_kpa_operate_enabled = kpa_operate;
      effective_clear_fault_enabled = clear_fault;
      effective_kpa_dry_run = not (kpa_standby || kpa_operate || clear_fault) && kpa500.dry_run;
      effective_kpa_allow_control = kpa500.allow_control || kpa_standby;
      effective_kpa_allow_rf_risk = kpa500.allow_rf_risk || kpa_operate;
      effective_kat_dry_run = not (kat_tune || kat_bypass || kat_antenna) && kat500.dry_run;
      effective_kat_allow_control = kat500.allow_control || kat_bypass || kat_antenna;
      effective_kat_allow_rf_risk = kat500.allow_rf_risk || kat_tune;
      kat_tune_reason =
          enabled_reason kat_tune "enabled by operational KAT tune or raw kat500.allow_rf_risk"
            "disabled: enable operational real controls, set enable_kat_tune=true, and confirm";
      kat_bypass_reason =
          enabled_reason kat_bypass
            "enabled by operational KAT bypass/standby or raw kat500.allow_control"
            "disabled: enable operational KAT bypass/standby or raw kat500.allow_control";
      kat_antenna_reason =
          enabled_reason kat_antenna
            "enabled by operational KAT antenna switching or raw kat500.allow_control"
            "disabled: enable operational KAT antenna switching or raw kat500.allow_control";
      kpa_standby_reason =
          enabled_reason kpa_standby
            "enabled by operational KPA standby or raw kpa500.allow_control"
            "disabled: enable operational KPA standby or raw kpa500.allow_control";
      kpa_operate_reason =
          enabled_reason kpa_operate
            "enabled by operational KPA operate or raw kpa500.allow_rf_risk"
            "disabled: RF-risk gate closed; enable KPA operate only for deliberate local testing";
      clear_fault_reason =
          enabled_reason clear_fault "enabled by operational clear-fault gate"
            "disabled: clear fault remains advanced/destructive by default";
    }
  where
    open cfg use {kpa500, kat500, operational as op}

-- The settings that `start_bridge` hands to the drivers.
unfoldable pub kpa500_settings : BridgeConfig → Kpa500Settings
unfolding effective_control_policy
kpa500_settings cfg = record {
  dry_run = policy.effective_kpa_dry_run;
  allow_control = policy.effective_kpa_allow_control;
  allow_rf_risk = policy.effective_kpa_allow_rf_risk;
  follow_flex_band = cfg.kpa500.follow_flex_band;
}
  where
    policy : EffectiveControlPolicy
    policy = effective_control_policy cfg

unfoldable pub kat500_settings : BridgeConfig → Kat500Settings
unfolding effective_control_policy
kat500_settings cfg = record {
  dry_run = policy.effective_kat_dry_run;
  allow_control = policy.effective_kat_allow_control;
  allow_rf_risk = policy.effective_kat_allow_rf_risk;
  follow_flex_frequency = cfg.kat500.follow_flex_frequency;
}
  where
    policy : EffectiveControlPolicy
    policy = effective_control_policy cfg

unfoldable pub operation_mode_label : EffectiveControlPolicy → String
operation_mode_label policy =
    if policy.effective_kpa_operate_enabled
    then "RF-RISK OPERATE"
    else if policy.effective_kat_tune_enabled || policy.effective_kpa_standby_enabled
    then "OPERATIONAL TUNE/STANDBY"
    else "MONITOR ONLY"
