-- ===== src/Kat500/Desired/Switched.antt =====
-- The controls that a pass writes for an antenna or a bypass.
use elecraft_genius_bridge.Bridge.Float.{Float32}
use elecraft_genius_bridge.Bridge.State.{BridgeState}
use elecraft_genius_bridge.Bridge.Desired.{DesiredState, ManualTuneRequest}
use elecraft_genius_bridge.Bridge.Serial.{Window}
use elecraft_genius_bridge.Kat500.Command.{
  Kat500Settings, ElecraftCommand, command_allowed, ensure_can_send, ensure_can_send_iff,
  antenna_command, cmd_bypass_on, cmd_bypass_off,
}
use elecraft_genius_bridge.Kat500.Send.{send_command}
use elecraft_genius_bridge.Kat500.Tune.{TunePort}
use elecraft_genius_bridge.Kat500.Desired.{
  taken, Ran, ControlPort, and_then, apply_desired_command, note_decision, decision_for, switches,
  switch_antenna, switch_bypass, refuse_manual, process_desired_control,
}
use elecraft_genius_bridge.Kat500.Desired.Guarded.{after_command-wires}
use elecraft_genius_bridge.Common.{
  Bool, List, Option, Option-cases, Text, [], ap, arith, false, if◌then◌else◌, inl, inr, none, refl,
  some, ℕ, ◌++◌, ◌∙◌, ◌∷◌, ◌≡◌,
}

abbrev pub if_allowed : Kat500Settings → ElecraftCommand → List Text
if_allowed s c = if command_allowed s c then c.wire ∷ [] else []

abbrev pub antenna_wires : Kat500Settings → Option ℕ → List Text
antenna_wires s none = []
antenna_wires s (some n) = if_allowed s (antenna_command n)

abbrev pub bypass_wires : Kat500Settings → Option Bool → List Text
bypass_wires s none = []
bypass_wires s (some b) = if_allowed s (if b then cmd_bypass_on else cmd_bypass_off)

append-nil : (xs : List Text) → xs ++ [] ≡ xs
append-nil [] = refl
append-nil (x ∷ xs) = ap (λ ys. x ∷ ys) (append-nil xs)

module _ (fl : Float32) (debug : Option Text → Text) (s : Kat500Settings) where
  apply-wires :
      (window : Window) (port : TunePort) (c : ElecraftCommand) (action : Text) (g : BridgeState fl)
      → (apply_desired_command fl debug s window port c action g).wires ≡ if_allowed s c
  unfolding apply_desired_command
  apply-wires window port c action g = elim (Option-cases (ensure_can_send s c)) [
    | inl e ↦
        let noted = note_decision fl debug c action (decision_for s c) g in
        let wire = after_command-wires fl debug port c noted (send_command window c) in
        rw (apply_desired_command, e, wire, (ensure_can_send_iff s c).0 e) refl
    | inr (why, e) ↦
        let blocked : command_allowed s c ≡ false = ground (arith, ensure_can_send_iff s c) in
        rw (apply_desired_command, e, blocked) refl
  ]

  and_then-wires :
      (r : Ran fl debug) (rest : BridgeState fl → Ran fl debug)
      → ((g : BridgeState fl) → (rest g).wires ≡ [])
      → (and_then fl debug r rest).wires ≡ r.wires
  unfolding and_then
  and_then-wires r rest h = elim (Option-cases r.error) [
    | inl e ↦ rw (e, h r.state) (append-nil r.wires)
    | inr (m, e) ↦ rw e refl
  ]

  refuse_manual-wires :
      (o : Option ManualTuneRequest) (g : BridgeState fl) → (refuse_manual fl debug o g).wires ≡ []
  unfolding refuse_manual
  refuse_manual-wires none g = refl
  refuse_manual-wires (some m) g = refl

  switch_antenna-wires :
      (window : Window) (port : TunePort) (o : Option ℕ) (g : BridgeState fl)
      → (switch_antenna fl debug s window port o g).wires ≡ antenna_wires s o
  unfolding switch_antenna
  switch_antenna-wires window port none g = refl
  switch_antenna-wires window port (some n) g = apply-wires window port (antenna_command n) _ g

  switch_bypass-wires :
      (window : Window) (port : TunePort) (o : Option Bool) (g : BridgeState fl)
      → (switch_bypass fl debug s window port o g).wires ≡ bypass_wires s o
  unfolding switch_bypass
  switch_bypass-wires window port none g = refl
  switch_bypass-wires window port (some b) g =
      apply-wires window port (if b then cmd_bypass_on else cmd_bypass_off) _ g

  bypassed-wires :
      (port : ControlPort) (d : DesiredState) (g : BridgeState fl)
      → (and_then fl debug
          (switch_bypass fl debug s port.bypass port.tune d.tuner_bypass g)
          (refuse_manual fl debug d.tuner_manual_tune)).wires
        ≡ bypass_wires s d.tuner_bypass
  bypassed-wires port d g =
      and_then-wires (switch_bypass fl debug s port.bypass port.tune d.tuner_bypass g)
        (refuse_manual fl debug d.tuner_manual_tune) (refuse_manual-wires d.tuner_manual_tune)
      ∙ switch_bypass-wires port.bypass port.tune d.tuner_bypass g

  pub switches-antenna :
      (port : ControlPort) (g : BridgeState fl)
      → g.desired.tuner_autotune_requested ≡ false
      → g.desired.tuner_bypass ≡ none
      → (process_desired_control fl debug s port g).wires
        ≡ antenna_wires s g.desired.tuner_selected_antenna
  unfolding process_desired_control switches
  switches-antenna port g a b =
      let d = g.desired in
      let g' = record g { desired = taken d } in
      let rest = λ (h : BridgeState fl).
        and_then fl debug (switch_bypass fl debug s port.bypass port.tune d.tuner_bypass h)
          (refuse_manual fl debug d.tuner_manual_tune) in
      rw a (
        and_then-wires
          (switch_antenna fl debug s port.antenna port.tune d.tuner_selected_antenna g') rest
          (λ h. bypassed-wires port d h ∙ ap (bypass_wires s) b)
        ∙ switch_antenna-wires port.antenna port.tune d.tuner_selected_antenna g')

  pub switches-bypass :
      (port : ControlPort) (g : BridgeState fl)
      → g.desired.tuner_autotune_requested ≡ false
      → g.desired.tuner_selected_antenna ≡ none
      → (process_desired_control fl debug s port g).wires ≡ bypass_wires s g.desired.tuner_bypass
  unfolding process_desired_control switches switch_antenna and_then
  switches-bypass port g a b =
      let d = g.desired in
      let g' = record g { desired = taken d } in rw (a, b) (bypassed-wires port d g')
