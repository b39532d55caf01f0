-- ===== src/Examples/Bands.antt =====
-- Passes of the band following.
use elecraft_genius_bridge.Bridge.Amp.{operate}
use elecraft_genius_bridge.Bridge.Serial.{done, sent, Port}
use elecraft_genius_bridge.Kpa500.Command.{Kpa500Settings}
use elecraft_genius_bridge.Kpa500.Band.{
  kpa_band_follow_wire, requested_bn_from_band_wire, confirmed_bn_from_band_response,
}
use elecraft_genius_bridge.Kpa500.Follow.{
  process_band_follow, BandFollowConfirmation, send_band_follow_confirmed,
  send_band_follow_once_exact,
}
use elecraft_genius_bridge.Kpa500.Follow.Sends.{
  IsDue, process_band_follow-IsDue, band_sent_only_once,
}
use elecraft_genius_bridge.Kpa500.Follow.Echo.{send_band_follow_confirmed-exact}
use elecraft_genius_bridge.Examples.Follow.{changing}
use elecraft_genius_bridge.Examples.Amp.{amp}
use elecraft_genius_bridge.Bridge.Float.{hundredths}
use elecraft_genius_bridge.Bridge.State.{BridgeState}
use elecraft_genius_bridge.Common.{
  [], codes, false, none, parse_nat, refl, saturating_add, some, strip_prefix, strip_suffix_char,
  true, ◌∷◌, ◌≡◌,
}

-- The amplifier stays silent at first, then reports its old band.
abbrev port : Port
port = record {
  drained_before = 0;
  first = record { sending = sent; lines = []; read_fails = false };
  second = record { sending = sent; lines = codes "^BN05;" ∷ []; read_fails = false };
  drained_after = 0;
}

abbrev unconfirmed : BandFollowConfirmation
unconfirmed = record {
  response = codes "^BN05;";
  requested_bn = 3;
  confirmed_bn = some 5;
  confirmation_match = false;
  stale_response_count = 3;
  retry_count = 1;
}

exchange : send_band_follow_confirmed port (codes "^BN03;") ≡ done unconfirmed
unfolding send_band_follow_confirmed requested_bn_from_band_wire strip_prefix strip_suffix_char
    parse_nat send_band_follow_once_exact confirmed_bn_from_band_response saturating_add
exchange = refl

send_band_follow_confirmed-exact_example : requested_bn_from_band_wire (codes "^BN03;") ≡ some 3
send_band_follow_confirmed-exact_example =
    (send_band_follow_confirmed-exact port (codes "^BN03;") {r = unconfirmed} exchange).0

abbrev state : BridgeState hundredths
state = record changing { amp = record amp { operate = true; state = operate } }

abbrev following : Kpa500Settings
following = record {
  dry_run = false;
  allow_control = true;
  allow_rf_risk = false;
  follow_flex_band = true;
}

due : IsDue hundredths following state (codes "^BN03;")
unfolding kpa_band_follow_wire
due = record {
  follows = refl;
  no_dry_run = refl;
  allowed = refl;
  not_transmitting = refl;
  not_tuning = refl;
  new_wire = λ e. cc;
  of_band = refl;
}

process_band_follow-IsDue_example :
    (process_band_follow hundredths following port state).1 ≡ some (codes "^BN03;")
process_band_follow-IsDue_example =
    (process_band_follow-IsDue hundredths following port state (codes "^BN03;")).1 due

first_pass : (process_band_follow hundredths following port state).1 ≡ some (codes "^BN03;")
unfolding process_band_follow kpa_band_follow_wire
first_pass = refl

band_sent_only_once_example :
    let g' = (process_band_follow hundredths following port state).0 in
    (g'.radio_context.last_kpa500_follow_confirmation_match ≡ some false)
    × ((process_band_follow hundredths following port g').1 ≡ none)
band_sent_only_once_example =
    band_sent_only_once hundredths following port port state (codes "^BN03;") unconfirmed first_pass
      exchange
