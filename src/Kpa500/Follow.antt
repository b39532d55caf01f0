-- ===== src/Kpa500/Follow.antt =====
-- `process_band_follow` with its exchange: the amplifier is kept on the radio's band. Evidence files are
-- left out.
pub mod Sends
pub mod Echo
use elecraft_genius_bridge.Bridge.Float.{Float32}
use elecraft_genius_bridge.Bridge.State.{BridgeState}
use elecraft_genius_bridge.Bridge.Band.{Band}
use elecraft_genius_bridge.Bridge.Amp.{AmpOperatingState, transmit_a, transmit_b}
use elecraft_genius_bridge.Bridge.Radio.{
  RadioContext, FollowResult, skipped_tuner_tuning, skipped_amplifier_transmitting,
  skipped_by_settings, follow_failed, follow_sent,
}
use elecraft_genius_bridge.Bridge.Serial.{Outcome, failed, done, Window, Port, if_sent}
use elecraft_genius_bridge.Kpa500.Command.{Kpa500Settings}
use elecraft_genius_bridge.Kpa500.Band.{
  kpa_band_follow_wire, requested_bn_from_band_wire, confirmed_bn_from_band_response,
}
use elecraft_genius_bridge.Common.{
  Bool, List, Option, Text, [], codes, false, if◌then◌else◌, none, not, saturating_add, some,
  text_eq, true, ℕ, ◌++◌, ◌==◌, ◌||◌, ◌∷◌,
}

pub record BandFollowConfirmation : Type 0 where
  pub response : Text
  pub requested_bn : ℕ
  pub confirmed_bn : Option ℕ
  pub confirmation_match : Bool
  pub stale_response_count : ℕ
  pub retry_count : ℕ

-- `confirmed_bn == Some(requested_bn)`
abbrev pub confirms : ℕ → Option ℕ → Bool
confirms requested_bn none = false
confirms requested_bn (some bn) = bn == requested_bn

-- The variables of the loop: the stale responses and the last response.
abbrev Reading : Type 0
Reading = ℕ × Option (Text × Option ℕ)

abbrev count_stale : ℕ → Option ℕ → ℕ
count_stale stale none = stale
count_stale stale (some bn) = saturating_add stale 1

-- The loop, up to the echo or to the end of the lines; whether it broke off at the echo.
unfoldable pub read_echo : ℕ → List Text → Reading → Reading × Bool
read_echo requested_bn [] r = (r, false)
read_echo requested_bn (response ∷ rest) r =
    let bn = confirmed_bn_from_band_response response in
    let later = read_echo requested_bn rest (count_stale r.0 bn, some (response, bn)) in
    if confirms requested_bn bn then ((r.0, some (response, bn)), true) else later

-- `last_response.unwrap_or_else(…)`
abbrev pub or_timeout : Option (Text × Option ℕ) → Text × Option ℕ
or_timeout none = (codes "timeout_waiting_for_exact_bn_echo", none)
or_timeout (some p) = p

abbrev pub conclude : ℕ → Reading → BandFollowConfirmation
conclude requested_bn r =
    let (response, confirmed_bn) = or_timeout r.1 in
    record {
      response = response;
      requested_bn = requested_bn;
      confirmed_bn = confirmed_bn;
      confirmation_match = confirms requested_bn confirmed_bn;
      stale_response_count = r.0;
      retry_count = 0;
    }

-- A reading error ends the attempt unless the echo came first.
abbrev pub after_lines : ℕ → Bool → Reading × Bool → Outcome BandFollowConfirmation
after_lines requested_bn false s = done (conclude requested_bn s.0)
after_lines requested_bn true s =
    if s.1
    then done (conclude requested_bn s.0)
    else failed (codes "failed reading KPA500 band-follow confirmation")

unfoldable pub send_band_follow_once_exact : Window → ℕ → Outcome BandFollowConfirmation
unfolding read_echo
send_band_follow_once_exact port requested_bn =
    if_sent port.sending (codes "failed to write KPA500 band-follow command")
      (codes "failed to flush KPA500 band-follow command")
      (after_lines requested_bn port.read_fails (read_echo requested_bn port.lines (0, none)))

second_try :
    Port → BandFollowConfirmation → Outcome BandFollowConfirmation → Outcome BandFollowConfirmation
second_try port one (failed e) = failed e
second_try port one (done two) =
    let stale =
      saturating_add
        (saturating_add (saturating_add port.drained_before one.stale_response_count) 1)
        two.stale_response_count in
    done (record two {
      stale_response_count = if two.confirmation_match then stale else saturating_add stale 1;
      retry_count = 1;
    })

first_try : Port → ℕ → Outcome BandFollowConfirmation → Outcome BandFollowConfirmation
unfolding second_try
first_try port requested_bn (failed e) = failed e
first_try port requested_bn (done one) =
    if one.confirmation_match
    then done (record one {
      stale_response_count = saturating_add port.drained_before one.stale_response_count;
    })
    else second_try port one (send_band_follow_once_exact port.second requested_bn)

unfoldable pub send_band_follow_confirmed : Port → Text → Outcome BandFollowConfirmation
unfolding first_try
send_band_follow_confirmed port wire = elim (requested_bn_from_band_wire wire) [
  | none ↦ failed (codes "invalid KPA500 band-follow wire " ++ wire)
  | some requested_bn ↦
      first_try port requested_bn (send_band_follow_once_exact port.first requested_bn)
]

abbrev pub is_transmitting : AmpOperatingState → Bool
is_transmitting transmit_a = true
is_transmitting transmit_b = true
is_transmitting _ = false

abbrev skip : RadioContext → RadioContext
skip c = record c { kpa500_follow_skipped_count = saturating_add c.kpa500_follow_skipped_count 1 }

-- `last_kpa500_follow_wire.as_deref() == Some(wire.as_str())`
abbrev pub same_wire : Option Text → Text → Bool
same_wire none wire = false
same_wire (some w) wire = text_eq w wire

module _ (fl : Float32) where
  abbrev skip_because : FollowResult → BridgeState fl → BridgeState fl
  skip_because result g = record g {
    radio_context = record (skip g.radio_context) { last_kpa500_follow_result = some result };
  }

  unfoldable pub finish :
      BridgeState fl → Band → Text → Outcome BandFollowConfirmation → BridgeState fl
  finish g band wire (failed e) = skip_because (follow_failed e) g
  finish g band wire (done c) = record g {
    radio_context =
        let context = g.radio_context in
        record context {
          last_kpa500_follow_band = some band;
          last_kpa500_follow_wire = some wire;
          last_kpa500_follow_result = some (
              follow_sent c.response c.requested_bn c.confirmed_bn c.confirmation_match
                c.stale_response_count c.retry_count);
          last_kpa500_follow_requested_bn = some c.requested_bn;
          last_kpa500_follow_confirmed_bn = c.confirmed_bn;
          last_kpa500_follow_confirmation_match = some c.confirmation_match;
          kpa500_follow_stale_response_count =
              saturating_add context.kpa500_follow_stale_response_count c.stale_response_count;
          kpa500_follow_retry_count =
              saturating_add context.kpa500_follow_retry_count c.retry_count;
          kpa500_follow_sent_count = saturating_add context.kpa500_follow_sent_count 1;
        };
  }

  -- The state after a pass, and the wire that goes to the port.
  unfoldable pub process_band_follow :
      Kpa500Settings → Port → BridgeState fl → BridgeState fl × Option Text
  unfolding finish
  process_band_follow s port g =
      if not s.follow_flex_band
      then (g, none)
      else elim (kpa_band_follow_wire g.radio_context.band) [
        | none ↦ (record g { radio_context = skip g.radio_context }, none)
        | some wire ↦
            if same_wire g.radio_context.last_kpa500_follow_wire wire
            then (g, none)
            else if is_transmitting g.amp.state || g.tuner.tuning
            then (
              skip_because
                  (if g.tuner.tuning then skipped_tuner_tuning else skipped_amplifier_transmitting)
                  g,
              none,
            )
            else if s.dry_run || not s.allow_control
            then (skip_because skipped_by_settings g, none)
            else (
              finish g g.radio_context.band wire (send_band_follow_confirmed port wire),
              some wire,
            )
      ]
