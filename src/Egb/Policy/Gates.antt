-- ===== src/Egb/Policy/Gates.antt =====
-- The policy beside the guards of the two drivers, which run with the settings that it makes.
use elecraft_genius_bridge.Kpa500.Command as Kpa500
use elecraft_genius_bridge.Kpa500.Command.{cmd_operate, cmd_standby, cmd_clear_fault}
use elecraft_genius_bridge.Kat500.Command as Kat500
use elecraft_genius_bridge.Kat500.Command.{
  cmd_autotune, cmd_bypass_on, cmd_bypass_off, antenna_command, cmd_frequency_context,
}
use elecraft_genius_bridge.Egb.Policy.{
  BridgeConfig, operational_controls_confirmed, effective_control_policy, kpa500_settings,
  kat500_settings,
}
use elecraft_genius_bridge.Common.{arith, false, none, true, ℕ, ◌||◌, ◌↔◌, ◌≡◌, ◌⊎◌}

-- A control that the policy calls enabled passes the guard of its driver.
pub enabled_controls_pass :
    (cfg : BridgeConfig) (antenna : ℕ)
    → let policy = effective_control_policy cfg in
      (policy.effective_kpa_operate_enabled ≡ true
        → Kpa500.ensure_can_send (kpa500_settings cfg) cmd_operate ≡ none)
      × (policy.effective_kpa_standby_enabled ≡ true
          → Kpa500.ensure_can_send (kpa500_settings cfg) cmd_standby ≡ none)
      × (policy.effective_clear_fault_enabled ≡ true
          → Kpa500.ensure_can_send (kpa500_settings cfg) cmd_clear_fault ≡ none)
      × (policy.effective_kat_tune_enabled ≡ true
          → Kat500.ensure_can_send (kat500_settings cfg) cmd_autotune ≡ none)
      × (policy.effective_kat_bypass_enabled ≡ true
          → Kat500.ensure_can_send (kat500_settings cfg) cmd_bypass_on ≡ none)
      × (policy.effective_kat_antenna_enabled ≡ true
          → Kat500.ensure_can_send (kat500_settings cfg) (antenna_command antenna) ≡ none)
unfolding kpa500_settings kat500_settings Kpa500.ensure_can_send Kat500.ensure_can_send
    antenna_command
enabled_controls_pass cfg antenna = ground arith

-- Without a confirmed override the drivers run with the raw switches of the configuration.
pub unconfirmed_settings :
    (cfg : BridgeConfig)
    → operational_controls_confirmed cfg ≡ false
    → let kpa = kpa500_settings cfg in
      let kat = kat500_settings cfg in
      (kpa.dry_run ≡ cfg.kpa500.dry_run)
      × (kpa.allow_control ≡ cfg.kpa500.allow_control)
      × (kpa.allow_rf_risk ≡ cfg.kpa500.allow_rf_risk)
      × (kat.dry_run ≡ cfg.kat500.dry_run)
      × (kat.allow_control ≡ cfg.kat500.allow_control)
      × (kat.allow_rf_risk ≡ cfg.kat500.allow_rf_risk)
unfolding kpa500_settings kat500_settings
unconfirmed_settings cfg h = ground arith

-- The operate command passes the driver's guard while the policy calls operate disabled exactly if
-- the raw dry run and RF-risk switches are both on and a confirmed override enables standby or
-- clear fault but not operate.
pub operate_leak_iff :
    (cfg : BridgeConfig)
    → ((Kpa500.ensure_can_send (kpa500_settings cfg) cmd_operate ≡ none)
        × ((effective_control_policy cfg).effective_kpa_operate_enabled ≡ false))
      ↔ ((cfg.kpa500.dry_run ≡ true)
          × (cfg.kpa500.allow_rf_risk ≡ true)
          × (operational_controls_confirmed cfg ≡ true)
          × (cfg.operational.enable_kpa_operate ≡ false)
          × ((cfg.operational.enable_kpa_standby || cfg.operational.enable_clear_fault) ≡ true))
unfolding kpa500_settings Kpa500.ensure_can_send
operate_leak_iff cfg = ground arith

-- The autotune command passes the driver's guard while the policy calls tuning disabled exactly if
-- the raw dry run and RF-risk switches are both on and a confirmed override enables bypass or
-- antenna switching but not tuning.
pub autotune_leak_iff :
    (cfg : BridgeConfig)
    → ((Kat500.ensure_can_send (kat500_settings cfg) cmd_autotune ≡ none)
        × ((effective_control_policy cfg).effective_kat_tune_enabled ≡ false))
      ↔ ((cfg.kat500.dry_run ≡ true)
          × (cfg.kat500.allow_rf_risk ≡ true)
          × (operational_controls_confirmed cfg ≡ true)
          × (cfg.operational.enable_kat_tune ≡ false)
          × ((cfg.operational.enable_kat_bypass || cfg.operational.enable_kat_antenna) ≡ true))
unfolding kat500_settings Kat500.ensure_can_send
autotune_leak_iff cfg = ground arith

-- The clear-fault command passes the driver's guard while the policy calls it disabled exactly if
-- no confirmed override enables it and either the raw dry run is off or a confirmed override
-- enables standby or operate, which switches the dry run off.
pub clear_fault_leak_iff :
    (cfg : BridgeConfig)
    → ((Kpa500.ensure_can_send (kpa500_settings cfg) cmd_clear_fault ≡ none)
        × ((effective_control_policy cfg).effective_clear_fault_enabled ≡ false))
      ↔ (((operational_controls_confirmed cfg ≡ true)
            → (cfg.operational.enable_clear_fault ≡ false))
          × ((cfg.kpa500.dry_run ≡ false)
              ⊎ ((operational_controls_confirmed cfg ≡ true)
                  × ((cfg.operational.enable_kpa_standby || cfg.operational.enable_kpa_operate)
                      ≡ true))))
unfolding kpa500_settings Kpa500.ensure_can_send
clear_fault_leak_iff cfg = ground arith

-- Antenna and bypass commands share one gate: whichever of the two the policy enables, both pass.
pub antenna_bypass_shared :
    (cfg : BridgeConfig) (antenna : ℕ)
    → ((effective_control_policy cfg).effective_kat_bypass_enabled
        || (effective_control_policy cfg).effective_kat_antenna_enabled)
      ≡ true
    → (Kat500.ensure_can_send (kat500_settings cfg) (antenna_command antenna) ≡ none)
      × (Kat500.ensure_can_send (kat500_settings cfg) cmd_bypass_on ≡ none)
      × (Kat500.ensure_can_send (kat500_settings cfg) cmd_bypass_off ≡ none)
unfolding kat500_settings Kat500.ensure_can_send antenna_command
antenna_bypass_shared cfg antenna h = ground arith
