-- ===== src/Kpa500/Control/Verified.antt =====
-- What verifies a control of the amplifier, what a pass writes, and how the clearing of a fault ends.
use elecraft_genius_bridge.Bridge.Float.{Float32}
use elecraft_genius_bridge.Bridge.State.{BridgeState}
use elecraft_genius_bridge.Bridge.Amp.{AmpOperatingState-discrete, standby, operate}
use elecraft_genius_bridge.Bridge.Serial.{Window, Outcome, failed, done, Outcome-cases}
use elecraft_genius_bridge.Bridge.Serial.Await.{IsFirst-of_Answers}
use elecraft_genius_bridge.Kpa500.Command.{
  Kpa500Settings, ElecraftCommand, ensure_can_send, cmd_operate, cmd_standby, cmd_clear_fault,
}
use elecraft_genius_bridge.Kpa500.Response.Operate.{
  parse_kpa500_response-raised, parse_kpa500_response-state, set_operate-one, set_operate-other,
}
use elecraft_genius_bridge.Kpa500.Send.{
  send_command, send_command_collect, amp_response-Answers, matches_expected_response,
  expected_prefixes,
}
use elecraft_genius_bridge.Kpa500.Control.{
  ControlPort, verifies, fresh, process_desired_control, send_ackless_verified, verify, set_amp,
  note_blocked, note_result, clear_fault, clear_on_port, cleared, send_no_ack_command,
  ControlCommandResult,
}
use elecraft_genius_bridge.Common.{
  Bool, List, Option, Option-cases, Text, [], arith, codes, false, if◌then◌else◌, inl, inr, none,
  not, refl, some, true, ◌&&◌, ◌∷◌, ◌≡◌, trim, ◌++◌, ◌↔◌, ◌∙◌, ◌≢◌, any_prefix, decides-yes,
  text_eq,
}

-- Whether the settings let a control through: RF risk for operate, control for standby.
abbrev pub allows : Kpa500Settings → Bool → Bool
allows s wanted = not s.dry_run && (if wanted then s.allow_rf_risk else s.allow_control)

abbrev pub wires_for : Kpa500Settings → Option Bool → List Text
wires_for s none = []
wires_for s (some wanted) =
    if allows s wanted then (if wanted then codes "^OS1;" else codes "^OS0;") ∷ [] else []

clear_fault-unmatched :
    (response : Text)
    → ¬ (matches_expected_response (expected_prefixes cmd_clear_fault) response ≡ true)
unfolding matches_expected_response expected_prefixes any_prefix text_eq
clear_fault-unmatched response h = ground arith

module _ (fl : Float32) where
  sends-wires :
      (s : Kpa500Settings) (port : ControlPort) (c : ElecraftCommand) (wanted : Bool)
      (g : BridgeState fl)
      → (send_ackless_verified fl s port c wanted g).2
        ≡ (elim (ensure_can_send s c) [ none ↦ c.wire ∷ [] | some why ↦ [] ])
  unfolding send_ackless_verified
  sends-wires s port c wanted g = elim (Option-cases (ensure_can_send s c)) [
    | inr (why, e) ↦ rw (send_ackless_verified, e) refl
    | inl e ↦ elim (Option-cases (send_no_ack_command port.sending c)) [
      | inl q ↦ rw (send_ackless_verified, e, q) refl
      | inr (m, q) ↦ rw (send_ackless_verified, e, q) refl
    ]
  ]

  sends-desired :
      (s : Kpa500Settings) (port : ControlPort) (c : ElecraftCommand) (wanted : Bool)
      (g : BridgeState fl)
      → (send_ackless_verified fl s port c wanted g).1.desired ≡ g.desired
  unfolding send_ackless_verified verify
  sends-desired s port c wanted g = ground arith

  note_blocked-desired :
      (s : Kpa500Settings) (c : ElecraftCommand) (g : BridgeState fl)
      → (note_blocked fl s c g).desired ≡ g.desired
  unfolding note_blocked
  note_blocked-desired s c g = ground arith

  note_result-desired :
      (c : ElecraftCommand) (o : Outcome ControlCommandResult) (g : BridgeState fl)
      → (note_result fl c o g).desired ≡ g.desired
  unfolding note_result
  note_result-desired c (failed e) g = refl
  note_result-desired c (done r) g = refl

  set_amp-desired :
      (s : Kpa500Settings) (port : ControlPort) (o : Option Bool) (g : BridgeState fl)
      → (set_amp fl s port o g).state.desired ≡ g.desired
  unfolding set_amp
  set_amp-desired s port none g = refl
  set_amp-desired s port (some wanted) g =
      let c = if wanted then cmd_operate else cmd_standby in
      let g' = note_blocked fl s c g in
      let sends = send_ackless_verified fl s port c wanted g' in
      note_result-desired c sends.0 sends.1
      ∙ (sends-desired s port c wanted g' ∙ note_blocked-desired s c g)

  set_amp-wires :
      (s : Kpa500Settings) (port : ControlPort) (o : Option Bool) (g : BridgeState fl)
      → (set_amp fl s port o g).wires ≡ wires_for s o
  unfolding set_amp
  set_amp-wires s port none g = refl
  set_amp-wires s port (some true) g =
      sends-wires s port cmd_operate true (note_blocked fl s cmd_operate g)
      ∙ (unfold ensure_can_send in ground arith)
  set_amp-wires s port (some false) g =
      sends-wires s port cmd_standby false (note_blocked fl s cmd_standby g)
      ∙ (unfold ensure_can_send in ground arith)

  -- A pass empties the mailbox of the request for the amplifier, leaves the tuner's requests in it, and
  -- writes exactly the control that was asked for if the settings allow it, and otherwise nothing.
  pub amp_control_wires :
      (s : Kpa500Settings) (port : ControlPort) (g : BridgeState fl)
      → let r = process_desired_control fl s port g in
        (r.wires ≡ wires_for s g.desired.amp_operate)
        × (r.state.desired ≡ record (g.desired) { amp_operate = none })
  unfolding process_desired_control
  amp_control_wires s port g =
      let g' = record g { desired = record (g.desired) { amp_operate = none } } in
      (
        set_amp-wires s port g.desired.amp_operate g',
        set_amp-desired s port g.desired.amp_operate g',
      )

  verifies-raised :
      (response : Text) → verifies fl response true ≡ true → trim response ≡ codes "^OS1;"
  unfolding verifies
  verifies-raised response h =
      parse_kpa500_response-raised fl response (fresh fl) refl (ground arith)

  operate_line-verifies :
      (response : Text) → trim response ≡ codes "^OS1;" → verifies fl response true ≡ true
  unfolding verifies
  operate_line-verifies response h =
      let read = parse_kpa500_response-state fl response (codes "1") (fresh fl) h in
      rw (read, set_operate-one fl (fresh fl))
        (decides-yes (AmpOperatingState-discrete operate operate) refl)

  -- Operate is verified by the line that reports it, and by no other.
  pub verifies_operate_iff :
      (response : Text) → (verifies fl response true ≡ true) ↔ (trim response ≡ codes "^OS1;")
  verifies_operate_iff response = (verifies-raised response, operate_line-verifies response)

  -- Standby is verified by every line of the operating state but the one that reports operate, whatever
  -- it reports.
  pub verifies_standby_iff :
      (response raw : Text)
      → trim response ≡ codes "^OS" ++ (raw ++ codes ";")
      → (verifies fl response false ≡ true) ↔ (raw ≢ codes "1")
  unfolding verifies
  verifies_standby_iff response raw h = (λ v e. one_does_not v e, λ n. other_does n)
    where
      one_does_not : verifies fl response false ≡ true → raw ≡ codes "1" → ⊥
      one_does_not v e =
          let read = parse_kpa500_response-state fl response raw (fresh fl) h in
          let up = set_operate-one fl (fresh fl) in ground arith

      other_does : raw ≢ codes "1" → verifies fl response false ≡ true
      other_does n =
          let (flag, at) = set_operate-other fl (fresh fl) raw refl refl n in
          let read = parse_kpa500_response-state fl response raw (fresh fl) h in
          rw (read, flag, at) (decides-yes (AmpOperatingState-discrete standby standby) refl)

  no_response : (port : Window) {r : Text} → send_command port cmd_clear_fault ≢ done r
  unfolding send_command
  no_response port {r} h = elim (Outcome-cases (send_command_collect port cmd_clear_fault)) [
    | inl (m, e) ↦ ground arith
    | inr (read, e) ↦
        let answers = amp_response-Answers port cmd_clear_fault in
        let first = IsFirst-of_Answers (rw e at answers) in
        clear_fault-unmatched read.response first.response_matches
  ]

  clear_on_port-fails : (opened : Outcome Window) → clear_on_port fl opened ≢ none
  unfolding clear_on_port cleared
  clear_on_port-fails (failed e) h = cc
  clear_on_port-fails (done port) h = elim (Outcome-cases (send_command port cmd_clear_fault)) [
    | inl (m, e) ↦ ground arith
    | inr (r, e) ↦ no_response port e
  ]

  -- On a port the clearing of a fault always ends with an error, although the command may have been
  -- written: no line counts as its response. The state stays as it is.
  pub clear_fault-fails :
      (s : Kpa500Settings) (opened : Outcome Window) (g : BridgeState fl)
      → ((clear_fault fl s false opened g).0 ≢ none) × ((clear_fault fl s false opened g).1 ≡ g)
  unfolding clear_fault
  clear_fault-fails s opened g = elim (Option-cases (ensure_can_send s cmd_clear_fault)) [
    | inr (why, e) ↦ rw (clear_fault, e) (λ k. cc, refl)
    | inl e ↦ rw (clear_fault, e) (clear_on_port-fails opened, refl)
  ]
