-- ===== src/Kat500/Follow/Passes.antt =====
-- What a pass of `process_frequency_follow` sends, and when.
use elecraft_genius_bridge.Bridge.Float.{Float32}
use elecraft_genius_bridge.Kat500.Command.{
  Kat500Settings, command_allowed, cmd_frequency_context, cmd_autotune,
}
use elecraft_genius_bridge.Kat500.Frequency.{frequency_context_wire}
use elecraft_genius_bridge.Bridge.Serial.{Window, Port}
use elecraft_genius_bridge.Bridge.State.{BridgeState}
use elecraft_genius_bridge.Kat500.Follow.{
  decide_in_range, carry_out, same_wire, process_frequency_follow, refresh_tuning_state_if_needed,
  decide, is_tuning, frequency_hz_to_khz,
}
use elecraft_genius_bridge.Common.{
  Text, false, some, true, ℕ, ◌||◌, ◌≡◌, ◌≢◌, Option, ap, arith, eq_of_text_eq, none, text_eq_iff,
  ◌↔◌, Bool-cases, Option-cases, inl, inr, saturating_add,
}

same_wire_iff : (o : Option Text) (w : Text) → (same_wire o w ≡ true) ↔ (o ≡ some w)
same_wire_iff none w = (λ e. cc, λ e. cc)
same_wire_iff (some v) w =
    (λ e. ap some (eq_of_text_eq v w e), λ e. ground (arith, text_eq_iff v w))

module _ (fl : Float32) where
  -- What a frequency sent to the tuner presupposes: following is on, the driver is in no dry run and may
  -- control the tuner or tune it, the tuner is not tuning after the refresh, and the frequency is the
  -- radio's, in range, with a wire other than the last.
  pub record MaySend (s : Kat500Settings) (g : BridgeState fl) (wire : Text) : Type 0 where
    pub follows : s.follow_flex_frequency ≡ true
    pub no_dry_run : s.dry_run ≡ false
    pub allowed : (s.allow_control || s.allow_rf_risk) ≡ true
    pub not_tuning : g.tuner.tuning ≡ false
    pub new_wire : g.radio_context.last_kat500_follow_wire ≢ some wire
    pub of_radio : frequency_context_wire g.radio_context.frequency_hz ≡ some wire

  decide_in_range-MaySend :
      (s : Kat500Settings) (g : BridgeState fl) (hz : ℕ) (wire : Text) (port : Port) {w : Text}
      → s.follow_flex_frequency ≡ true
      → g.radio_context.frequency_hz ≡ some hz
      → frequency_context_wire (some hz) ≡ some wire
      → (carry_out fl port (decide_in_range fl s g hz wire)).1 ≡ some w
      → MaySend s g w
  unfolding decide_in_range carry_out command_allowed
  decide_in_range-MaySend s g hz wire port {w} f e q h =
      ground (arith, same_wire_iff g.radio_context.last_kat500_follow_wire wire)

  decide-MaySend :
      (s : Kat500Settings) (g : BridgeState fl) (port : Port) {wire : Text}
      → s.follow_flex_frequency ≡ true
      → (carry_out fl port (decide fl s g)).1 ≡ some wire
      → MaySend s g wire
  unfolding decide carry_out
  decide-MaySend s g port {wire} f h = elim (Option-cases g.radio_context.frequency_hz) [
    | inl e ↦ absurd (ground arith)
    | inr (hz, e) ↦ elim (Option-cases (frequency_context_wire (some hz))) [
      | inl q ↦ absurd (ground arith)
      | inr (w, q) ↦ decide_in_range-MaySend s g hz w port f e q (ground arith)
    ]
  ]

  -- A pass that sends a wire has following switched on and no dry run, and control or RF risk
  -- allowed; after the refresh the tuner is not tuning, and the wire is that of the radio's
  -- frequency and not the last one followed.
  pub process_frequency_follow-MaySend :
      (s : Kat500Settings) (poll : Window) (now : ℕ) (port : Port) (g : BridgeState fl)
      {wire : Text}
      → (process_frequency_follow fl s poll now port g).1 ≡ some wire
      → MaySend s (refresh_tuning_state_if_needed fl poll now g) wire
  unfolding process_frequency_follow
  process_frequency_follow-MaySend s poll now port g {wire} h =
      elim (Bool-cases s.follow_flex_frequency) [
        | inl f ↦
            decide-MaySend s (refresh_tuning_state_if_needed fl poll now g) port f (ground arith)
        | inr f ↦ absurd (ground arith)
      ]

  -- When a change of the frequency is due to be sent.
  pub record Due (s : Kat500Settings) (g : BridgeState fl) (wire : Text) : Type 0 where
    pub follows : s.follow_flex_frequency ≡ true
    pub allowed : (command_allowed s cmd_frequency_context || command_allowed s cmd_autotune) ≡ true
    pub at_rest : (g.tuner.tuning || is_tuning g.tune.state) ≡ false
    pub new_wire : g.radio_context.last_kat500_follow_wire ≢ some wire
    pub of_radio : frequency_context_wire g.radio_context.frequency_hz ≡ some wire

  put_off : BridgeState fl → ℕ → BridgeState fl
  put_off g hz =
      let c = g.radio_context in
      record g {
        radio_context = record c {
          last_kat500_follow_requested_khz = some (frequency_hz_to_khz hz);
          kat500_follow_skipped_count = saturating_add c.kat500_follow_skipped_count 1;
        };
      }
