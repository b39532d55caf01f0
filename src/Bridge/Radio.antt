-- ===== src/Bridge/Radio.antt =====
-- `RadioContext`: what the bridge knows of the radio, and of the drivers' following of it.
use elecraft_genius_bridge.Bridge.Band.{Band, unknown}
use elecraft_genius_bridge.Common.{Bool, Option, Text, ℕ, none}

-- What the texts of `last_kpa500_follow_result` are made of: the reason of a skip, the message of a
-- failure, or the response, the requested and the confirmed number, whether they match, and the counts of
-- stale responses and retries.
pub data FollowResult : Type 0 where
  skipped_tuner_tuning skipped_amplifier_transmitting skipped_by_settings : FollowResult
  follow_failed : Text → FollowResult
  follow_sent : Text → ℕ → Option ℕ → Bool → ℕ → ℕ → FollowResult

pub record RadioContext : Type 0 where
  pub active_tx_slice : Option ℕ
  pub frequency_hz : Option ℕ
  pub band : Band
  pub mode : Option Text
  pub tx_antenna : Option Text
  pub rx_antenna : Option Text
  pub radio_serial : Option Text
  pub radio_nickname : Option Text
  pub radio_callsign : Option Text
  pub source : Option Text
  pub last_tune_frequency_hz : Option ℕ
  pub last_tune_band : Option Band
  pub last_kat500_follow_frequency_hz : Option ℕ
  pub last_kat500_follow_wire : Option Text
  pub last_kat500_follow_requested_khz : Option ℕ
  pub last_kat500_follow_confirmed_khz : Option ℕ
  pub last_kat500_follow_confirmation_match : Option Bool
  pub kat500_follow_sent_count : ℕ
  pub kat500_follow_skipped_count : ℕ
  pub kat500_follow_stale_response_count : ℕ
  pub kat500_follow_retry_count : ℕ
  pub last_kpa500_follow_band : Option Band
  pub last_kpa500_follow_wire : Option Text
  pub last_kpa500_follow_result : Option FollowResult
  pub last_kpa500_follow_requested_bn : Option ℕ
  pub last_kpa500_follow_confirmed_bn : Option ℕ
  pub last_kpa500_follow_confirmation_match : Option Bool
  pub kpa500_follow_stale_response_count : ℕ
  pub kpa500_follow_retry_count : ℕ
  pub kpa500_follow_sent_count : ℕ
  pub kpa500_follow_skipped_count : ℕ
  pub updated_at : Option ℕ
  pub last_tune_at : Option ℕ

-- `#[derive(Default)]`.
abbrev pub default_radio_context : RadioContext
default_radio_context = record {
  active_tx_slice = none;
  frequency_hz = none;
  band = unknown;
  mode = none;
  tx_antenna = none;
  rx_antenna = none;
  radio_serial = none;
  radio_nickname = none;
  radio_callsign = none;
  source = none;
  last_tune_frequency_hz = none;
  last_tune_band = none;
  last_kat500_follow_frequency_hz = none;
  last_kat500_follow_wire = none;
  last_kat500_follow_requested_khz = none;
  last_kat500_follow_confirmed_khz = none;
  last_kat500_follow_confirmation_match = none;
  kat500_follow_sent_count = 0;
  kat500_follow_skipped_count = 0;
  kat500_follow_stale_response_count = 0;
  kat500_follow_retry_count = 0;
  last_kpa500_follow_band = none;
  last_kpa500_follow_wire = none;
  last_kpa500_follow_result = none;
  last_kpa500_follow_requested_bn = none;
  last_kpa500_follow_confirmed_bn = none;
  last_kpa500_follow_confirmation_match = none;
  kpa500_follow_stale_response_count = 0;
  kpa500_follow_retry_count = 0;
  kpa500_follow_sent_count = 0;
  kpa500_follow_skipped_count = 0;
  updated_at = none;
  last_tune_at = none;
}
