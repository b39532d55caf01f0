-- ===== src/Bridge/Amp.antt =====
-- `AmpOperatingState` and `AmpState` of crates/bridge-core/src/state.rs, over the type of the
-- floating-point numbers. Times of day are numbers.
use elecraft_genius_bridge.Bridge.Stats.{DeviceRuntimeStats, default_stats}
use elecraft_genius_bridge.Bridge.Tuner.{ConnectionState, disconnected}
use elecraft_genius_bridge.Common.{Bool, List, Option, String, Text, ℕ, [], codes, false, none}

pub data AmpOperatingState : Type 0 where
  standby idle operate transmit_a transmit_b power_up fault : AmpOperatingState

pub AmpOperatingState-discrete : Discrete AmpOperatingState
AmpOperatingState-discrete = hlevel

unfoldable pub pgxl_state : AmpOperatingState → String
pgxl_state standby = "STANDBY"
pgxl_state idle = "IDLE"
pgxl_state operate = "OPERATE"
pgxl_state transmit_a = "TRANSMIT_A"
pgxl_state transmit_b = "TRANSMIT_B"
pgxl_state power_up = "POWERUP"
pgxl_state fault = "FAULT"

pub record AmpState (Float : Type 0) : Type 0 where
  pub connected : Bool
  pub connection_state : ConnectionState
  pub operate : Bool
  pub state : AmpOperatingState
  pub forward_power_watts : Float
  pub reflected_power_watts : Float
  pub swr : Float
  pub pa_current_amps : Float
  pub pa_voltage_volts : Float
  pub temperature_c : Float
  pub meffa : Text
  pub fault : Option Text
  pub fault_speaker_on : Option Bool
  pub warning : Option Text
  pub firmware_version : Option Text
  pub serial_number : Option Text
  pub capabilities : List Text
  pub first_poll_completed : Bool
  pub first_poll_error : Option Text
  pub serial_port_open_error : Option Text
  pub last_raw_response : Option Text
  pub last_successful_command : Option Text
  pub startup_state_policy : Option Text
  pub advertisement_waiting_for_first_poll : Bool
  pub last_serial_command_at : Option ℕ
  pub last_serial_response_at : Option ℕ
  pub last_successful_poll_at : Option ℕ
  pub runtime : DeviceRuntimeStats

-- `AmpState::default()`, with the literals 0.0 and 1.0.
abbrev pub default_amp : {Float : Type 0} → Float → Float → AmpState Float
default_amp naught one = record {
  connected = false;
  connection_state = disconnected;
  operate = false;
  state = standby;
  forward_power_watts = naught;
  reflected_power_watts = naught;
  swr = one;
  pa_current_amps = naught;
  pa_voltage_volts = naught;
  temperature_c = naught;
  meffa = codes "UNKNOWN";
  fault = none;
  fault_speaker_on = none;
  warning = none;
  firmware_version = none;
  serial_number = none;
  capabilities = [];
  first_poll_completed = false;
  first_poll_error = none;
  serial_port_open_error = none;
  last_raw_response = none;
  last_successful_command = none;
  startup_state_policy = none;
  advertisement_waiting_for_first_poll = false;
  last_serial_command_at = none;
  last_serial_response_at = none;
  last_successful_poll_at = none;
  runtime = default_stats;
}
