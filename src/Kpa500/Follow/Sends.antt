-- ===== src/Kpa500/Follow/Sends.antt =====
-- When a pass of `process_band_follow` sends a band, and what it leaves behind.
use elecraft_genius_bridge.Bridge.Serial.{done, Port}
use elecraft_genius_bridge.Kpa500.Command.{Kpa500Settings}
use elecraft_genius_bridge.Kpa500.Band.{kpa_band_follow_wire}
use elecraft_genius_bridge.Bridge.Float.{Float32}
use elecraft_genius_bridge.Bridge.State.{BridgeState}
use elecraft_genius_bridge.Kpa500.Follow.{
  process_band_follow, is_transmitting, same_wire, finish, BandFollowConfirmation,
  send_band_follow_confirmed,
}
use elecraft_genius_bridge.Common.{
  Option, Option-cases, Text, ap, arith, eq_of_text_eq, false, inl, inr, none, some, text_eq_iff,
  true, ◌↔◌, ◌≡◌, ◌≢◌,
}

same_wire_iff : (o : Option Text) (w : Text) → (same_wire o w ≡ true) ↔ (o ≡ some w)
same_wire_iff none w = (λ e. cc, λ e. cc)
same_wire_iff (some v) w =
    (λ e. ap some (eq_of_text_eq v w e), λ e. ground (arith, text_eq_iff v w))

module _ (fl : Float32) where
  -- Following is on, control is allowed outside a dry run, neither the amplifier transmits nor the tuner
  -- tunes, and the band's wire is not the last one.
  pub record IsDue (s : Kpa500Settings) (g : BridgeState fl) (wire : Text) : Type 0 where
    pub follows : s.follow_flex_band ≡ true
    pub no_dry_run : s.dry_run ≡ false
    pub allowed : s.allow_control ≡ true
    pub not_transmitting : is_transmitting g.amp.state ≡ false
    pub not_tuning : g.tuner.tuning ≡ false
    pub new_wire : g.radio_context.last_kpa500_follow_wire ≢ some wire
    pub of_band : kpa_band_follow_wire g.radio_context.band ≡ some wire

  -- A pass sends a wire exactly when that wire is due: following is on, control is allowed and there
  -- is no dry run, neither the amplifier transmits nor the tuner tunes, and the wire is that of the
  -- radio's band and not the last one followed.
  pub process_band_follow-IsDue :
      (s : Kpa500Settings) (port : Port) (g : BridgeState fl) (wire : Text)
      → ((process_band_follow fl s port g).1 ≡ some wire) ↔ IsDue s g wire
  unfolding process_band_follow
  process_band_follow-IsDue s port g wire =
      elim (Option-cases (kpa_band_follow_wire g.radio_context.band)) [
        | inl e ↦ (λ h. absurd (ground arith), λ d. absurd (ground (arith, d.of_band)))
        | inr (w, e) ↦
            let same = same_wire_iff g.radio_context.last_kpa500_follow_wire w in
            (
              λ h. record {
                follows = ground arith;
                no_dry_run = ground arith;
                allowed = ground arith;
                not_transmitting = ground arith;
                not_tuning = ground arith;
                new_wire = ground (arith, same);
                of_band = ground arith;
              },
              λ d. ground (
                arith, same, d.follows, d.no_dry_run, d.allowed, d.not_transmitting, d.not_tuning,
                d.new_wire, d.of_band,
              ),
            )
      ]

  -- What a pass leaves behind when it has sent a wire and the exchange has ended without an error.
  left_behind :
      (s : Kpa500Settings) (port : Port) (g : BridgeState fl) (wire : Text)
      (c : BandFollowConfirmation)
      → (process_band_follow fl s port g).1 ≡ some wire
      → send_band_follow_confirmed port wire ≡ done c
      → let g' = (process_band_follow fl s port g).0 in
        (g'.radio_context.last_kpa500_follow_confirmation_match ≡ some c.confirmation_match)
        × (g'.radio_context.last_kpa500_follow_wire ≡ some wire)
        × (g'.radio_context.band ≡ g.radio_context.band)
  unfolding process_band_follow finish
  left_behind s port g wire c h e =
      elim (Option-cases (kpa_band_follow_wire g.radio_context.band)) [
        | inl n ↦ absurd (ground arith)
        | inr (w, n) ↦ ground arith
      ]

  -- Once an exchange has ended without an error, the next pass sends nothing while the radio stays on the
  -- band, whether the amplifier has confirmed it or not.
  pub band_sent_only_once :
      (s : Kpa500Settings) (port port' : Port) (g : BridgeState fl) (wire : Text)
      (c : BandFollowConfirmation)
      → (process_band_follow fl s port g).1 ≡ some wire
      → send_band_follow_confirmed port wire ≡ done c
      → let g' = (process_band_follow fl s port g).0 in
        (g'.radio_context.last_kpa500_follow_confirmation_match ≡ some c.confirmation_match)
        × ((process_band_follow fl s port' g').1 ≡ none)
  band_sent_only_once s port port' g wire c h e =
      let kept = left_behind s port g wire c h e in
      (
        kept.0,
        elim (Option-cases (process_band_follow fl s port' (process_band_follow fl s port g).0).1) [
          | inl n ↦ n
          | inr (again, n) ↦
              let first = (process_band_follow-IsDue s port g wire).0 h in
              let more = (process_band_follow-IsDue s port' _ again).0 n in
              absurd (ground (arith, first.of_band, more.of_band, more.new_wire, kept))
        ],
      )
