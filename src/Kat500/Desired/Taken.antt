-- ===== src/Kat500/Desired/Taken.antt =====
-- The mailbox and the time of the last tune after a pass of the desired control.
use elecraft_genius_bridge.Bridge.Float.{Float32}
use elecraft_genius_bridge.Bridge.State.{BridgeState}
use elecraft_genius_bridge.Bridge.Desired.{DesiredState, ManualTuneRequest, default_desired}
use elecraft_genius_bridge.Bridge.Serial.{Window, Port, Outcome, failed, done}
use elecraft_genius_bridge.Kat500.Command.{
  Kat500Settings, ElecraftCommand, ensure_can_send, cmd_autotune,
}
use elecraft_genius_bridge.Kat500.Frequency.{frequency_context_wire}
use elecraft_genius_bridge.Kat500.Echo.{FrequencyFollowRead, send_frequency_context_confirmed}
use elecraft_genius_bridge.Kat500.Send.{send_command}
use elecraft_genius_bridge.Kat500.Tune.{TunePort, poll_tune_until_idle}
use elecraft_genius_bridge.Kat500.Tune.Keeps.{Keeps, kept, Keeps-trans, poll_tune_until_idle-Keeps}
use elecraft_genius_bridge.Kat500.Desired.{
  executed, taken, Decision, Ran, and_then, ControlPort, apply_desired_command, note_decision,
  decision_for, after_command, note_context, send_context, begin_tune, suppress, finished,
  note_tune, tune_now, switch_antenna, switch_bypass, refuse_manual, switches,
  process_desired_control, in_cooldown, is_autotune,
}
use elecraft_genius_bridge.Common.{
  Bool, Option, Option-cases, Text, arith, if_cases, inl, inr, none, refl, some, ℕ, ◌+◌, ◌∙◌, ◌≡◌,
  [], codes, false, if_split, not, true, ◌<◌, ◌≤◌,
}

module _ (fl : Float32) (debug : Option Text → Text) where
  note_decision-Keeps :
      (c : ElecraftCommand) (action : Text) (d : Decision) (g : BridgeState fl)
      → Keeps g (note_decision fl debug c action d g)
  unfolding note_decision
  note_decision-Keeps c action d g = kept refl refl

  after_command-Keeps :
      (port : TunePort) (c : ElecraftCommand) (g : BridgeState fl) (o : Outcome Text)
      → Keeps g (after_command fl debug port c g o).state
  unfolding after_command executed
  after_command-Keeps port c g (failed e) = kept refl refl
  after_command-Keeps port c g (done r) =
      let g' = executed fl debug c g in
      let k = poll_tune_until_idle-Keeps fl debug port g' in
      if_cases (Keeps g) (is_autotune c) (poll_tune_until_idle fl debug port g') g'
        (kept k.desired k.last_tune_at) (kept refl refl)

  apply-Keeps :
      (s : Kat500Settings) (window : Window) (port : TunePort) (c : ElecraftCommand) (action : Text)
      (g : BridgeState fl)
      → Keeps g (apply_desired_command fl debug s window port c action g).state
  unfolding apply_desired_command note_decision
  apply-Keeps s window port c action g = elim (Option-cases (ensure_can_send s c)) [
    | inl e ↦
        let noted = note_decision fl debug c action (decision_for s c) g in
        let k = after_command-Keeps port c noted (send_command window c) in
        rw (apply_desired_command, e) (kept k.desired k.last_tune_at)
    | inr (why, e) ↦ rw (apply_desired_command, e) (kept refl refl)
  ]

  and_then-Keeps :
      (g : BridgeState fl) (r : Ran fl debug) (rest : BridgeState fl → Ran fl debug)
      → Keeps g r.state
      → ((g' : BridgeState fl) → Keeps g' (rest g').state)
      → Keeps g (and_then fl debug r rest).state
  unfolding and_then
  and_then-Keeps g r rest h k = elim (Option-cases r.error) [
    | inl e ↦ rw e (Keeps-trans h (k r.state))
    | inr (m, e) ↦ rw e h
  ]

  switch_antenna-Keeps :
      (s : Kat500Settings) (window : Window) (port : TunePort) (o : Option ℕ) (g : BridgeState fl)
      → Keeps g (switch_antenna fl debug s window port o g).state
  unfolding switch_antenna
  switch_antenna-Keeps s window port none g = kept refl refl
  switch_antenna-Keeps s window port (some n) g = apply-Keeps s window port _ _ g

  switch_bypass-Keeps :
      (s : Kat500Settings) (window : Window) (port : TunePort) (o : Option Bool)
      (g : BridgeState fl)
      → Keeps g (switch_bypass fl debug s window port o g).state
  unfolding switch_bypass
  switch_bypass-Keeps s window port none g = kept refl refl
  switch_bypass-Keeps s window port (some b) g = apply-Keeps s window port _ _ g

  refuse_manual-Keeps :
      (o : Option ManualTuneRequest) (g : BridgeState fl)
      → Keeps g (refuse_manual fl debug o g).state
  unfolding refuse_manual
  refuse_manual-Keeps none g = kept refl refl
  refuse_manual-Keeps (some m) g = kept refl refl

  switches-Keeps :
      (s : Kat500Settings) (port : ControlPort) (d : DesiredState) (g : BridgeState fl)
      → Keeps g (switches fl debug s port d g).state
  unfolding switches
  switches-Keeps s port d g =
      and_then-Keeps g (switch_antenna fl debug s port.antenna port.tune d.tuner_selected_antenna g)
        (λ g'.
          and_then fl debug (switch_bypass fl debug s port.bypass port.tune d.tuner_bypass g')
            (refuse_manual fl debug d.tuner_manual_tune))
        (switch_antenna-Keeps s port.antenna port.tune d.tuner_selected_antenna g)
        λ g'.
          and_then-Keeps g' (switch_bypass fl debug s port.bypass port.tune d.tuner_bypass g')
            (refuse_manual fl debug d.tuner_manual_tune)
            (switch_bypass-Keeps s port.bypass port.tune d.tuner_bypass g')
            (refuse_manual-Keeps d.tuner_manual_tune)

  note_context-Keeps :
      (hz : Option ℕ) (wire : Text) (g : BridgeState fl) (o : Outcome FrequencyFollowRead)
      → Keeps g (note_context fl debug hz wire g o)
  unfolding note_context
  note_context-Keeps hz wire g (failed e) = kept refl refl
  note_context-Keeps hz wire g (done r) = kept refl refl

  send_context-Keeps :
      (s : Kat500Settings) (port : Port) (g : BridgeState fl)
      → Keeps g (send_context fl debug s port g).state
  unfolding send_context
  send_context-Keeps s port g =
      elim (Option-cases (frequency_context_wire g.radio_context.frequency_hz)) [
        | inl e ↦ rw (send_context, e) (kept refl refl)
        | inr (wire, e) ↦
            rw (send_context, e)
              (if_cases (λ (r : Ran fl debug). Keeps g r.state) _ (finished fl debug g) _
                (kept refl refl)
                (note_context-Keeps g.radio_context.frequency_hz wire g
                  (send_frequency_context_confirmed port wire)))
      ]

  note_tune-Keeps : (now : ℕ) (r : Ran fl debug) → Keeps r.state (note_tune fl debug now r).state
  unfolding note_tune
  note_tune-Keeps now r = ground arith

  tune_now-Keeps :
      (s : Kat500Settings) (port : ControlPort) (g : BridgeState fl)
      → Keeps (begin_tune fl debug port.now_ms g) (tune_now fl debug s port g).state
  unfolding tune_now
  tune_now-Keeps s port g =
      let begun = begin_tune fl debug port.now_ms g in
      let run = λ (g' : BridgeState fl).
        apply_desired_command fl debug s port.autotune port.tune cmd_autotune
          (codes "TGXL autotune -> KAT500 T;") g' in
      and_then-Keeps begun (send_context fl debug s port.frequency begun)
        (λ g'. note_tune fl debug port.finished_ms (run g'))
        (send_context-Keeps s port.frequency begun)
        λ g'.
          Keeps-trans (apply-Keeps s port.autotune port.tune cmd_autotune _ g')
            (note_tune-Keeps port.finished_ms (run g'))

  tuned-Keeps :
      (s : Kat500Settings) (port : ControlPort) (g : BridgeState fl)
      → let begun = begin_tune fl debug port.now_ms (record g { desired = taken g.desired }) in
        g.desired.tuner_autotune_requested ≡ true
        → in_cooldown g.radio_context.last_tune_at port.now_ms ≡ false
        → Keeps begun (process_desired_control fl debug s port g).state
  unfolding process_desired_control
  tuned-Keeps s port g h k =
      let g' = record g { desired = taken g.desired } in
      rw (h, k)
        (and_then-Keeps (begin_tune fl debug port.now_ms g') (tune_now fl debug s port g')
          (switches fl debug s port g.desired) (tune_now-Keeps s port g')
          (switches-Keeps s port g.desired))

  -- After a pass, however it ends, the mailbox holds no request for the tuner any more, and a request for
  -- the amplifier is left in it.
  pub process_desired_control-taken :
      (s : Kat500Settings) (port : ControlPort) (g : BridgeState fl)
      → (process_desired_control fl debug s port g).state.desired
        ≡ record default_desired { amp_operate = g.desired.amp_operate }
  unfolding process_desired_control begin_tune suppress
  process_desired_control-taken s port g =
      let g' = record g { desired = taken g.desired } in
      let P = λ (r : Ran fl debug). r.state.desired ≡ taken g.desired in
      if_split P (not g.desired.tuner_autotune_requested) (switches fl debug s port g.desired g') _
        (λ e. (switches-Keeps s port g.desired g').desired)
        λ e.
          if_split P (in_cooldown g.radio_context.last_tune_at port.now_ms)
            (finished fl debug (suppress fl debug port.now_ms g')) _ (λ q. refl)
            λ q.
              (and_then-Keeps (begin_tune fl debug port.now_ms g') (tune_now fl debug s port g')
                (switches fl debug s port g.desired) (tune_now-Keeps s port g')
                (switches-Keeps s port g.desired)).desired

  suppressed :
      (s : Kat500Settings) (port : ControlPort) (g : BridgeState fl)
      → g.desired.tuner_autotune_requested ≡ true
      → in_cooldown g.radio_context.last_tune_at port.now_ms ≡ true
      → ((process_desired_control fl debug s port g).wires ≡ [])
        × ((process_desired_control fl debug s port g).error ≡ none)
  unfolding process_desired_control
  suppressed s port g h k = rw (h, k) (refl, refl)

  -- A tune is asked for again within 1500 ms of the start of a pass that tuned, or tried to: the second
  -- pass writes nothing to the port and does not fail, whatever else changed in between; an antenna that
  -- was asked for with it leaves the mailbox all the same.
  pub tuned_once :
      (s : Kat500Settings) (port port' : ControlPort) (g g' : BridgeState fl)
      → g.desired.tuner_autotune_requested ≡ true
      → in_cooldown g.radio_context.last_tune_at port.now_ms ≡ false
      → g'.radio_context.last_tune_at
        ≡ (process_desired_control fl debug s port g).state.radio_context.last_tune_at
      → g'.desired.tuner_autotune_requested ≡ true
      → port.now_ms ≤ port'.now_ms
      → port'.now_ms < port.now_ms + 1500
      → let r = process_desired_control fl debug s port' g' in
        (r.wires ≡ []) × (r.error ≡ none) × (r.state.desired.tuner_selected_antenna ≡ none)
  unfolding begin_tune
  tuned_once s port port' g g' a c l a' b e =
      let k = (tuned-Keeps s port g a c).last_tune_at in
      let recent : in_cooldown g'.radio_context.last_tune_at port'.now_ms ≡ true =
        rw (l ∙ k) (ground arith) in
      let quiet = suppressed s port' g' a' recent in
      (quiet.0, quiet.1, rw (process_desired_control-taken s port' g') refl)
