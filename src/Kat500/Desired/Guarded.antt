-- ===== src/Kat500/Desired/Guarded.antt =====
-- The controls that a pass writes to the port, set against the mailbox and the settings.
use elecraft_genius_bridge.Bridge.Float.{Float32}
use elecraft_genius_bridge.Bridge.State.{BridgeState}
use elecraft_genius_bridge.Bridge.Desired.{DesiredState, ManualTuneRequest}
use elecraft_genius_bridge.Bridge.Serial.{Window, Port, Outcome, failed, done}
use elecraft_genius_bridge.Kat500.Command.{
  Kat500Settings, ElecraftCommand, ensure_can_send, command_allowed, cmd_autotune, cmd_bypass_on,
  cmd_bypass_off, antenna_command, antenna_wire,
}
use elecraft_genius_bridge.Kat500.Frequency.{frequency_context_wire}
use elecraft_genius_bridge.Kat500.Send.{send_command}
use elecraft_genius_bridge.Kat500.Tune.{TunePort}
use elecraft_genius_bridge.Kat500.Follow.{same_wire}
use elecraft_genius_bridge.Kat500.Desired.{
  taken, finished, suppress, Ran, and_then, ControlPort, apply_desired_command, after_command,
  send_context, begin_tune, note_tune, tune_now, switch_antenna, switch_bypass, refuse_manual,
  switches, process_desired_control, in_cooldown,
}
use elecraft_genius_bridge.Common.{
  All, All-append, Bool, Bool-cases, Option, Option-cases, Text, [], arith, codes, false,
  if◌then◌else◌, inl, inr, none, refl, some, true, ℕ, ◌∷◌, ◌≡◌, not, ◌||◌, if_split,
}

-- A wire that the request `d` asks for and the settings permit. The frequency goes ahead of a tune.
pub data IsPermitted (s : Kat500Settings) (d : DesiredState) (hz : Option ℕ) : Text → Type 0 where
  tune :
      d.tuner_autotune_requested ≡ true
      → s.dry_run ≡ false
      → s.allow_rf_risk ≡ true
      → IsPermitted s d hz (codes "T;")
  frequency :
      (wire : Text)
      → frequency_context_wire hz ≡ some wire
      → d.tuner_autotune_requested ≡ true
      → s.dry_run ≡ false
      → s.allow_rf_risk ≡ true
      → IsPermitted s d hz wire
  antenna :
      (n : ℕ)
      → d.tuner_selected_antenna ≡ some n
      → s.dry_run ≡ false
      → s.allow_control ≡ true
      → IsPermitted s d hz (antenna_wire n)
  bypass :
      (b : Bool)
      → d.tuner_bypass ≡ some b
      → s.dry_run ≡ false
      → s.allow_control ≡ true
      → IsPermitted s d hz (if b then codes "BYPB;" else codes "BYPN;")

module _ (fl : Float32) (debug : Option Text → Text) where
  and_then-All :
      (P : Text → Type 0) (r : Ran fl debug) (rest : BridgeState fl → Ran fl debug)
      → All P r.wires
      → ((g : BridgeState fl) → All P (rest g).wires)
      → All P (and_then fl debug r rest).wires
  unfolding and_then
  and_then-All P r rest h k = elim (Option-cases r.error) [
    | inl e ↦ rw e (All-append P r.wires _ h (k r.state))
    | inr (m, e) ↦ rw e h
  ]

  pub after_command-wires :
      (port : TunePort) (c : ElecraftCommand) (g : BridgeState fl) (o : Outcome Text)
      → (after_command fl debug port c g o).wires ≡ c.wire ∷ []
  unfolding after_command
  after_command-wires port c g (failed e) = refl
  after_command-wires port c g (done r) = refl

  -- The wire goes out if the guard lets it.
  apply-All :
      (P : Text → Type 0) (s : Kat500Settings) (window : Window) (port : TunePort)
      (c : ElecraftCommand) (action : Text) (g : BridgeState fl)
      → (ensure_can_send s c ≡ none → P c.wire)
      → All P (apply_desired_command fl debug s window port c action g).wires
  unfolding apply_desired_command
  apply-All P s window port c action g h = elim (Option-cases (ensure_can_send s c)) [
    | inl e ↦
        rw (apply_desired_command, e, after_command-wires port c _ (send_command window c))
          (h e, tt)
    | inr (why, e) ↦ rw (apply_desired_command, e) tt
  ]

  module _ (s : Kat500Settings) (d : DesiredState) (hz : Option ℕ) where
    abbrev AllPermitted : Ran fl debug → Type 0
    AllPermitted r = All (IsPermitted s d hz) r.wires

    tuned :
        d.tuner_autotune_requested ≡ true
        → ensure_can_send s cmd_autotune ≡ none
        → IsPermitted s d hz (codes "T;")
    unfolding ensure_can_send
    tuned a e = tune a (ground arith) (ground arith)

    context_sent :
        (wire : Text)
        → frequency_context_wire hz ≡ some wire
        → d.tuner_autotune_requested ≡ true
        → command_allowed s cmd_autotune ≡ true
        → IsPermitted s d hz wire
    unfolding command_allowed
    context_sent wire q a e = frequency wire q a (ground arith) (ground arith)

    send_context-All :
        (port : Port) (g : BridgeState fl)
        → d.tuner_autotune_requested ≡ true
        → g.radio_context.frequency_hz ≡ hz
        → AllPermitted (send_context fl debug s port g)
    unfolding send_context
    send_context-All port g a e =
        elim (Option-cases (frequency_context_wire g.radio_context.frequency_hz)) [
          | inl q ↦ rw (send_context, q) tt
          | inr (wire, q) ↦
              elim (Bool-cases (
                same_wire g.radio_context.last_kat500_follow_wire wire
                || not (command_allowed s cmd_autotune))) [
                  | inl h ↦ rw (send_context, q, h) tt
                  | inr h ↦
                      rw (send_context, q, h) (context_sent wire (rw e at q) a (ground arith), tt)
                ]
        ]

    switch_antenna-All :
        (window : Window) (port : TunePort) (o : Option ℕ) (g : BridgeState fl)
        → d.tuner_selected_antenna ≡ o
        → AllPermitted (switch_antenna fl debug s window port o g)
    unfolding switch_antenna
    switch_antenna-All window port none g e = tt
    switch_antenna-All window port (some n) g e =
        apply-All (IsPermitted s d hz) s window port (antenna_command n) _ g
          (unfold ensure_can_send antenna_command in λ h. antenna n e (ground arith) (ground arith))

    switch_bypass-All :
        (window : Window) (port : TunePort) (o : Option Bool) (g : BridgeState fl)
        → d.tuner_bypass ≡ o
        → AllPermitted (switch_bypass fl debug s window port o g)
    unfolding switch_bypass
    switch_bypass-All window port none g e = tt
    switch_bypass-All window port (some true) g e =
        apply-All (IsPermitted s d hz) s window port cmd_bypass_on _ g
          (unfold ensure_can_send in λ h. bypass true e (ground arith) (ground arith))
    switch_bypass-All window port (some false) g e =
        apply-All (IsPermitted s d hz) s window port cmd_bypass_off _ g
          (unfold ensure_can_send in λ h. bypass false e (ground arith) (ground arith))

    refuse_manual-All :
        (o : Option ManualTuneRequest) (g : BridgeState fl)
        → AllPermitted (refuse_manual fl debug o g)
    unfolding refuse_manual
    refuse_manual-All none g = tt
    refuse_manual-All (some m) g = tt

    switches-All :
        (port : ControlPort) (g : BridgeState fl) → AllPermitted (switches fl debug s port d g)
    unfolding switches
    switches-All port g =
        and_then-All (IsPermitted s d hz)
          (switch_antenna fl debug s port.antenna port.tune d.tuner_selected_antenna g)
          (λ g'.
            and_then fl debug (switch_bypass fl debug s port.bypass port.tune d.tuner_bypass g')
              (refuse_manual fl debug d.tuner_manual_tune))
          (switch_antenna-All port.antenna port.tune d.tuner_selected_antenna g refl)
          λ g'.
            and_then-All (IsPermitted s d hz)
              (switch_bypass fl debug s port.bypass port.tune d.tuner_bypass g')
              (refuse_manual fl debug d.tuner_manual_tune)
              (switch_bypass-All port.bypass port.tune d.tuner_bypass g' refl)
              (refuse_manual-All d.tuner_manual_tune)

    note_tune-wires : (now : ℕ) (r : Ran fl debug) → (note_tune fl debug now r).wires ≡ r.wires
    unfolding note_tune
    note_tune-wires now r = ground arith

    tune_now-All :
        (port : ControlPort) (g : BridgeState fl)
        → d.tuner_autotune_requested ≡ true
        → g.radio_context.frequency_hz ≡ hz
        → AllPermitted (tune_now fl debug s port g)
    unfolding tune_now begin_tune
    tune_now-All port g a e =
        let run = λ (g' : BridgeState fl).
          apply_desired_command fl debug s port.autotune port.tune cmd_autotune
            (codes "TGXL autotune -> KAT500 T;") g' in
        and_then-All (IsPermitted s d hz)
          (send_context fl debug s port.frequency (begin_tune fl debug port.now_ms g))
          (λ g'. note_tune fl debug port.finished_ms (run g'))
          (send_context-All port.frequency _ a e)
          λ g'.
            rw (note_tune-wires port.finished_ms (run g'))
              (apply-All (IsPermitted s d hz) s port.autotune port.tune cmd_autotune _ g' (tuned a))

  -- Whatever the port answers, every control that a pass writes to it was asked for in the mailbox, and
  -- the settings permit it: no dry run, and RF risk allowed for a tune and the frequency ahead of it,
  -- control allowed for the antenna and the bypass. The frequency is that of the radio.
  pub process_desired_control-IsPermitted :
      (s : Kat500Settings) (port : ControlPort) (g : BridgeState fl)
      → All
          (IsPermitted s g.desired g.radio_context.frequency_hz)
          (process_desired_control fl debug s port g).wires
  unfolding process_desired_control
  process_desired_control-IsPermitted s port g =
      let d = g.desired in
      let hz = g.radio_context.frequency_hz in
      let g' = record g { desired = taken d } in
      if_split (AllPermitted s d hz) (not d.tuner_autotune_requested)
        (switches fl debug s port d g') _ (λ e. switches-All s d hz port g')
        λ e.
          if_split (AllPermitted s d hz) (in_cooldown g.radio_context.last_tune_at port.now_ms)
            (finished fl debug (suppress fl debug port.now_ms g'))
            (and_then fl debug (tune_now fl debug s port g') (switches fl debug s port d)) (λ q. tt)
            λ q.
              and_then-All (IsPermitted s d hz) (tune_now fl debug s port g')
                (switches fl debug s port d) (tune_now-All s d hz port g' (ground arith) refl)
                (switches-All s d hz port)
