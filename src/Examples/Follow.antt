-- ===== src/Examples/Follow.antt =====
-- Passes of the frequency following.
use elecraft_genius_bridge.Bridge.Float.{hundredths}
use elecraft_genius_bridge.Bridge.Band.{m40}
use elecraft_genius_bridge.Bridge.Radio.{RadioContext}
use elecraft_genius_bridge.Bridge.Lifecycle.{idle}
use elecraft_genius_bridge.Kat500.Command.{Kat500Settings, command_allowed}
use elecraft_genius_bridge.Kat500.Frequency.{
  frequency_context_wire, requested_khz_from_frequency_wire, confirmed_khz_from_frequency_response,
}
use elecraft_genius_bridge.Kat500.Echo.{
  FrequencyFollowRead, send_frequency_context_confirmed, send_frequency_context_once_exact,
}
use elecraft_genius_bridge.Bridge.Serial.{Window, sent, done, Port}
use elecraft_genius_bridge.Kat500.Echo.Exact.{send_frequency_context_confirmed-exact}
use elecraft_genius_bridge.Bridge.State.{BridgeState}
use elecraft_genius_bridge.Kat500.Follow.{process_frequency_follow, refresh_tuning_state_if_needed}
use elecraft_genius_bridge.Kat500.Follow.Passes.{MaySend, process_frequency_follow-MaySend}
use elecraft_genius_bridge.Kat500.Follow.Once.{sent_only_once}
use elecraft_genius_bridge.Bridge.Desired.{default_desired, default_controls}
use elecraft_genius_bridge.Bridge.Injection.{default_injection}
use elecraft_genius_bridge.Bridge.Radio.{default_radio_context}
use elecraft_genius_bridge.Examples.Amp.{amp}
use elecraft_genius_bridge.Examples.Lines.{tuner}
use elecraft_genius_bridge.Common.{
  [], codes, false, none, refl, some, true, ◌∷◌, ◌≡◌, is_whitespace, parse_nat, saturating_add,
  show_nat, strip_prefix, trim, trim_end_matches, trim_start_matches,
}

-- Only noise comes back to the first attempt, the echo to the second.
abbrev pub port : Port
port = record {
  drained_before = 2;
  first = record {
    sending = sent;
    lines = codes "F 7030;" ∷ codes "BN03;" ∷ [];
    read_fails = false;
  };
  second = record { sending = sent; lines = codes "F 7074;" ∷ []; read_fails = false };
  drained_after = 0;
}

abbrev confirmed_read : FrequencyFollowRead
confirmed_read = record {
  response = codes "F 7074;";
  requested_khz = 7074;
  confirmed_khz = some 7074;
  confirmation_match = true;
  band_response = none;
  stale_response_count = 4;
  retry_count = 1;
  post_quiet_drained = 0;
}

exchange : send_frequency_context_confirmed port (codes "F 7074;") ≡ done confirmed_read
unfolding send_frequency_context_confirmed requested_khz_from_frequency_wire strip_prefix trim
    trim_end_matches trim_start_matches is_whitespace parse_nat send_frequency_context_once_exact
    confirmed_khz_from_frequency_response saturating_add
exchange = refl

send_frequency_context_confirmed-exact_example :
    requested_khz_from_frequency_wire (codes "F 7074;") ≡ some 7074
send_frequency_context_confirmed-exact_example =
    (send_frequency_context_confirmed-exact port (codes "F 7074;") {r = confirmed_read} exchange).0

abbrev pub context : RadioContext
context = record default_radio_context {
  frequency_hz = some 7074000;
  band = m40;
  last_kat500_follow_requested_khz = some 7030;
}

-- A change that the first pass puts off.
abbrev pub changing : BridgeState hundredths
changing = record {
  radio_context = context;
  amp = amp;
  tuner = tuner;
  flex_injection = default_injection;
  desired = default_desired;
  controls = default_controls;
  tune = record {
    state = idle;
    transition_count = 0;
    last_transition_reason = none;
    entered_at_ms = none;
    last_successful_tune_ms = none;
    last_failed_tune_ms = none;
  };
}

-- The first change, which goes out at once.
abbrev first_change : BridgeState hundredths
first_change = record changing {
  radio_context = record context { last_kat500_follow_requested_khz = none };
}

abbrev following : Kat500Settings
following = record {
  dry_run = false;
  allow_control = true;
  allow_rf_risk = false;
  follow_flex_frequency = true;
}

abbrev pub no_poll : Window
no_poll = record { sending = sent; lines = []; read_fails = false }

first_pass :
    (process_frequency_follow hundredths following no_poll 0 port first_change).1
    ≡ some (codes "F 7074;")
unfolding process_frequency_follow command_allowed frequency_context_wire show_nat
first_pass = refl

process_frequency_follow-MaySend_example :
    MaySend hundredths following
      (refresh_tuning_state_if_needed hundredths no_poll 0 first_change)
      (codes "F 7074;")
process_frequency_follow-MaySend_example =
    process_frequency_follow-MaySend hundredths following no_poll 0 port first_change
      {wire = codes "F 7074;"} first_pass

sent_only_once_example :
    let g' = (process_frequency_follow hundredths following no_poll 0 port first_change).0 in
    (g'.radio_context.last_kat500_follow_confirmation_match ≡ some true)
    × ((process_frequency_follow hundredths following no_poll 1000 port g').1 ≡ none)
sent_only_once_example =
    sent_only_once hundredths following no_poll no_poll 0 1000 port port first_change
      (codes "F 7074;") confirmed_read first_pass exchange
