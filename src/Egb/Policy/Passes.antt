-- ===== src/Egb/Policy/Passes.antt =====
-- The policy beside the passes of the two drivers: the desired control and the following of the radio.
use elecraft_genius_bridge.Bridge.Serial.{Window, Port}
use elecraft_genius_bridge.Bridge.State.{BridgeState}
use elecraft_genius_bridge.Bridge.Float.{Float32}
use elecraft_genius_bridge.Bridge.Desired.{DesiredState}
use elecraft_genius_bridge.Config.Operational.{confirmation, controls_confirmed}
use elecraft_genius_bridge.Kpa500.Command as Kpa500
use elecraft_genius_bridge.Kpa500.Control as Kpa500Control
use elecraft_genius_bridge.Kpa500.Control.Verified.{amp_control_wires, wires_for}
use elecraft_genius_bridge.Kpa500.Follow.{process_band_follow}
use elecraft_genius_bridge.Kpa500.Follow.Sends.{process_band_follow-IsDue}
use elecraft_genius_bridge.Kat500.Command as Kat500
use elecraft_genius_bridge.Kat500.Desired as Kat500Desired
use elecraft_genius_bridge.Kat500.Desired.Guarded.{
  IsPermitted, tune, frequency, antenna, bypass, process_desired_control-IsPermitted,
}
use elecraft_genius_bridge.Kat500.Follow.{process_frequency_follow}
use elecraft_genius_bridge.Kat500.Follow.Passes.{process_frequency_follow-MaySend}
use elecraft_genius_bridge.Egb.Policy.{
  BridgeConfig, operational_controls_confirmed, effective_control_policy, kpa500_settings,
  kat500_settings,
}
use elecraft_genius_bridge.Common.{
  All, Bool, List, Option, Text, [], arith, none, refl, some, text_eq_iff, true, ℕ, ◌∷◌, ◌≡◌, ◌≢◌,
  ◌↔◌, ◌∙◌,
}

settings-dry :
    (cfg : BridgeConfig)
    → cfg.kpa500.dry_run ≡ true
    → cfg.kat500.dry_run ≡ true
    → cfg.operational.confirm_real_hardware_control ≢ confirmation
    → ((kpa500_settings cfg).dry_run ≡ true) × ((kat500_settings cfg).dry_run ≡ true)
unfolding kpa500_settings kat500_settings effective_control_policy operational_controls_confirmed
    controls_confirmed
settings-dry cfg kpa_dry kat_dry unconfirmed =
    ground (arith, text_eq_iff cfg.operational.confirm_real_hardware_control confirmation)

none_of_All :
    {P : Text → Type 0} (wires : List Text) → ((w : Text) → ¬ P w) → All P wires → wires ≡ []
none_of_All [] n a = refl
none_of_All (w ∷ ws) n a = absurd (n w a.0)

nothing_sent : (o : Option Text) → ((w : Text) → o ≢ some w) → o ≡ none
nothing_sent none n = refl
nothing_sent (some w) n = absurd (n w refl)

nothing-IsPermitted :
    (s : Kat500.Kat500Settings) (d : DesiredState) (hz : Option ℕ) (w : Text)
    → s.dry_run ≡ true
    → ¬ IsPermitted s d hz w
nothing-IsPermitted s d hz w dry (tune asked off risk) = ground arith
nothing-IsPermitted s d hz w dry (frequency wire e asked off risk) = ground arith
nothing-IsPermitted s d hz w dry (antenna n e off control) = ground arith
nothing-IsPermitted s d hz w dry (bypass b e off control) = ground arith

no_amp_wires : (s : Kpa500.Kpa500Settings) (o : Option Bool) → s.dry_run ≡ true → wires_for s o ≡ []
no_amp_wires s none dry = refl
no_amp_wires s (some wanted) dry = ground arith

guards_pass_queries :
    (s : Kpa500.Kpa500Settings) (c : Kpa500.ElecraftCommand)
    → s.dry_run ≡ true
    → (Kpa500.ensure_can_send s c ≡ none) ↔ (c.safety ≡ Kpa500.read_only)
unfolding Kpa500.ensure_can_send
guards_pass_queries s c dry = ground arith

tuner_guard_passes_queries :
    (s : Kat500.Kat500Settings) (c : Kat500.ElecraftCommand)
    → s.dry_run ≡ true
    → (Kat500.ensure_can_send s c ≡ none) ↔ (c.safety ≡ Kat500.read_only)
unfolding Kat500.ensure_can_send
tuner_guard_passes_queries s c dry = ground arith

module _ (fl : Float32) (debug : Option Text → Text) where
  -- If the raw dry run is on for both devices and the operator has not written out the confirmation, then
  -- the guards of both drivers let no command through but queries, and whatever the clients have asked
  -- for, whatever the radio does and whatever the ports give, no pass of the desired control writes a
  -- control, and no pass of the following sends a band or a frequency.
  pub dry_run_writes_nothing :
      (cfg : BridgeConfig)
      → cfg.kpa500.dry_run ≡ true
      → cfg.kat500.dry_run ≡ true
      → cfg.operational.confirm_real_hardware_control ≢ confirmation
      → (amp_port : Kpa500Control.ControlPort) (band_port : Port)
        (tuner_port : Kat500Desired.ControlPort) (poll : Window) (now : ℕ) (frequency_port : Port)
        (g : BridgeState fl) (amp_command : Kpa500.ElecraftCommand)
        (tuner_command : Kat500.ElecraftCommand)
      → let kpa = kpa500_settings cfg in
        let kat = kat500_settings cfg in
        ((Kpa500Control.process_desired_control fl kpa amp_port g).wires ≡ [])
        × ((process_band_follow fl kpa band_port g).1 ≡ none)
        × ((Kat500Desired.process_desired_control fl debug kat tuner_port g).wires ≡ [])
        × ((process_frequency_follow fl kat poll now frequency_port g).1 ≡ none)
        × ((Kpa500.ensure_can_send kpa amp_command ≡ none)
            ↔ (amp_command.safety ≡ Kpa500.read_only))
        × ((Kat500.ensure_can_send kat tuner_command ≡ none)
            ↔ (tuner_command.safety ≡ Kat500.read_only))
  dry_run_writes_nothing cfg raw_kpa raw_kat unconfirmed amp_port band_port tuner_port poll now
        frequency_port g amp_command tuner_command =
      let kpa = kpa500_settings cfg in
      let kat = kat500_settings cfg in
      let (kpa_dry, kat_dry) = settings-dry cfg raw_kpa raw_kat unconfirmed in
      let requests = g.desired in
      let hz = g.radio_context.frequency_hz in
      (
        (amp_control_wires fl kpa amp_port g).0 ∙ no_amp_wires kpa requests.amp_operate kpa_dry,
        nothing_sent _ (λ w e.
            let due = (process_band_follow-IsDue fl kpa band_port g w).0 e in
            let off = due.no_dry_run in cc),
        none_of_All _ (λ w. nothing-IsPermitted kat requests hz w kat_dry)
            (process_desired_control-IsPermitted fl debug kat tuner_port g),
        nothing_sent _ (λ w e.
            let may = process_frequency_follow-MaySend fl kat poll now frequency_port g e in
            let off = may.no_dry_run in cc),
        guards_pass_queries kpa amp_command kpa_dry,
        tuner_guard_passes_queries kat tuner_command kat_dry,
      )
