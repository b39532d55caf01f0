-- ===== src/Bridge/Injection.antt =====
-- The fields of `FlexInjectionState` that the modelled operations read or write.
use elecraft_genius_bridge.Bridge.Latency.Log.{Log}
use elecraft_genius_bridge.Common.{Bool, Option, Text, [], false, none, ℕ}

pub record FlexInjectionState : Type 0 where
  pub amplifier_reannounce_requested : Bool
  pub amplifier_reannounce_request_count : ℕ
  pub last_amplifier_reannounce_request_reason : Option Text
  pub last_advertised_pgxl_state : Option Text
  pub last_advertised_tgxl_operate : Option Bool
  pub last_pgxl_status_state_at_ms : Option ℕ
  pub last_pgxl_status_state : Option Text
  pub last_kpa_state_change_detected_at_ms : Option ℕ
  pub last_kpa_state_change_state : Option Text
  pub kpa_state_transitions : Log

abbrev pub default_injection : FlexInjectionState
default_injection = record {
  amplifier_reannounce_requested = false;
  amplifier_reannounce_request_count = 0;
  last_amplifier_reannounce_request_reason = none;
  last_advertised_pgxl_state = none;
  last_advertised_tgxl_operate = none;
  last_pgxl_status_state_at_ms = none;
  last_pgxl_status_state = none;
  last_kpa_state_change_detected_at_ms = none;
  last_kpa_state_change_state = none;
  kpa_state_transitions = record { count = 0; latencies = [] };
}
