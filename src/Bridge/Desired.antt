-- ===== src/Bridge/Desired.antt =====
-- `DesiredState`, the mailbox between the clients' controls and the drivers, and `ControlDiagnostics`.
use elecraft_genius_bridge.Common.{Bool, Option, Text, false, none, ℕ}

pub record ManualTuneRequest : Type 0 where
  pub relay : ℕ
  pub movement : Bool × ℕ

pub record DesiredState : Type 0 where
  pub amp_operate : Option Bool
  pub tuner_autotune_requested : Bool
  pub tuner_selected_antenna : Option ℕ
  pub tuner_bypass : Option Bool
  pub tuner_manual_tune : Option ManualTuneRequest

abbrev pub default_desired : DesiredState
default_desired = record {
  amp_operate = none;
  tuner_autotune_requested = false;
  tuner_selected_antenna = none;
  tuner_bypass = none;
  tuner_manual_tune = none;
}

pub record ControlDiagnostics : Type 0 where
  pub aethersdr_button_command_seen : Bool
  pub tune_command_seen : Bool
  pub amp_control_command_seen : Bool
  pub any_control_event_seen : Bool
  pub last_tgxl_control_command : Option Text
  pub last_pgxl_control_command : Option Text
  pub last_flex_amp_set_command : Option Text
  pub last_mapped_elecraft_action : Option Text
  pub last_executed_elecraft_command : Option Text
  pub last_safety_decision : Option Text
  pub blocked_by_dry_run_count : ℕ
  pub blocked_by_rf_risk_count : ℕ
  pub control_requested_count : ℕ
  pub duplicate_autotune_suppressed_count : ℕ
  pub last_tune_frequency_hz : Option ℕ
  pub last_tune_band : Option Text
  pub tune_requested_count : ℕ
  pub tune_executed_count : ℕ
  pub tune_failed_count : ℕ
  pub last_tune_result : Option Text

abbrev pub default_controls : ControlDiagnostics
default_controls = record {
  aethersdr_button_command_seen = false;
  tune_command_seen = false;
  amp_control_command_seen = false;
  any_control_event_seen = false;
  last_tgxl_control_command = none;
  last_pgxl_control_command = none;
  last_flex_amp_set_command = none;
  last_mapped_elecraft_action = none;
  last_executed_elecraft_command = none;
  last_safety_decision = none;
  blocked_by_dry_run_count = 0;
  blocked_by_rf_risk_count = 0;
  control_requested_count = 0;
  duplicate_autotune_suppressed_count = 0;
  last_tune_frequency_hz = none;
  last_tune_band = none;
  tune_requested_count = 0;
  tune_executed_count = 0;
  tune_failed_count = 0;
  last_tune_result = none;
}
