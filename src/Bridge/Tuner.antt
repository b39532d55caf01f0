-- ===== src/Bridge/Tuner.antt =====
-- `ConnectionState` and `TunerState` of crates/bridge-core/src/state.rs, over the type of the
-- floating-point numbers. Times of day are numbers, and a signed number is
-- a sign and a magnitude.
use elecraft_genius_bridge.Bridge.Stats.{DeviceRuntimeStats, default_stats}
use elecraft_genius_bridge.Common.{Bool, List, Option, Text, false, true, ℕ, String, [], none}

pub data ConnectionState : Type 0 where
  disconnected connecting connected degraded error : ConnectionState

unfoldable pub is_healthy : ConnectionState → Bool
is_healthy connected = true
is_healthy _ = false

pub record TunerState (Float : Type 0) : Type 0 where
  pub connected : Bool
  pub connection_state : ConnectionState
  pub operate : Bool
  pub bypass : Bool
  pub tuning : Bool
  pub selected_antenna : Option ℕ
  pub relay_c1 : Bool × ℕ
  pub relay_l : Bool × ℕ
  pub relay_c2 : Bool × ℕ
  pub forward_power_watts : Float
  pub swr : Float
  pub fault : Option Text
  pub firmware_version : Option Text
  pub serial_number : Option Text
  pub capabilities : List Text
  pub last_serial_command_at : Option ℕ
  pub last_serial_response_at : Option ℕ
  pub last_successful_poll_at : Option ℕ
  pub runtime : DeviceRuntimeStats

unfoldable pub connection_state_str : ConnectionState → String
connection_state_str disconnected = "disconnected"
connection_state_str connecting = "connecting"
connection_state_str connected = "connected"
connection_state_str degraded = "degraded"
connection_state_str error = "error"

-- `TunerState::default()`, with the literals 0.0 and 1.0.
abbrev pub default_tuner : {Float : Type 0} → Float → Float → TunerState Float
default_tuner naught one = record {
  connected = false;
  connection_state = disconnected;
  operate = false;
  bypass = false;
  tuning = false;
  selected_antenna = none;
  relay_c1 = (false, 0);
  relay_l = (false, 0);
  relay_c2 = (false, 0);
  forward_power_watts = naught;
  swr = one;
  fault = none;
  firmware_version = none;
  serial_number = none;
  capabilities = [];
  last_serial_command_at = none;
  last_serial_response_at = none;
  last_successful_poll_at = none;
  runtime = default_stats;
}
