-- ===== src/Pgxl/Mailbox.antt =====
-- What the clients of the emulated amplifier ask of the driver, and what a pass of the driver then writes.
use elecraft_genius_bridge.Bridge.Float.{Float32}
use elecraft_genius_bridge.Bridge.State.{BridgeState}
use elecraft_genius_bridge.Bridge.Desired.{DesiredState}
use elecraft_genius_bridge.Kpa500.Command.{Kpa500Settings}
use elecraft_genius_bridge.Kpa500.Control.{ControlPort, process_desired_control}
use elecraft_genius_bridge.Kpa500.Control.Verified.{allows, wires_for, amp_control_wires}
use elecraft_genius_bridge.Pgxl.Status.{status_body}
use elecraft_genius_bridge.Pgxl.Command.{
  Handled, handle_command, handle_status, note_status, handle_rest, handle_amp, ask_amp,
}
use elecraft_genius_bridge.Common.{
  Bool, Bool-cases, Option, Text, [], arith, codes, eq_of_text_eq, false, if_cases, if_split,
  if◌then◌else◌, inl, inr, none, not, refl, some, starts_with, strip_prefix, text_eq, true, ℕ, ◌&&◌,
  ◌is◌, ◌||◌, ◌∷◌, ◌≡◌, ap, ◌∙◌,
}

-- What a command asks of the amplifier.
unfoldable pub asked : Text → Option Bool → Option Bool
asked command before =
    if command is "operate" then some true else if command is "standby" then some false else before

module _ (fl : Float32) (now seq : ℕ) (aethersdr_compat : Bool) (status_profile : Text) where
  -- No request is added.
  record Quiet (g : BridgeState fl) (h : Handled fl) : Type 0 where
    same : h.1.desired ≡ g.desired

  quiet : (g : BridgeState fl) (h : Handled fl) → h.1.desired ≡ g.desired → Quiet g h
  quiet g h e = record { same = e }

  rest-Quiet :
      (command : Text) (g : BridgeState fl)
      → (command is "operate") ≡ false
      → (command is "standby") ≡ false
      → Quiet g (handle_rest fl now seq command aethersdr_compat status_profile g)
  unfolding handle_rest
  rest-Quiet command g a b =
      if_cases (Quiet g) (starts_with (codes "flexradio read=") command) _ _ (quiet g _ refl) (
        if_cases (Quiet g) (starts_with (codes "flexradio ") command) _ _ (quiet g _ refl) (
          if_cases (Quiet g) (command is "save") _ _ (quiet g _ refl) (
            if_split (Quiet g) (command is "operate") _ _ (λ e. absurd (ground arith))
              λ e.
                if_split (Quiet g) (command is "standby") _ _ (λ e. absurd (ground arith))
                  λ e. quiet g _ refl)))

  handle_command-Quiet :
      (command : Text) (g : BridgeState fl)
      → (command is "operate") ≡ false
      → (command is "standby") ≡ false
      → Quiet g (handle_command fl now seq command aethersdr_compat status_profile g)
  unfolding handle_command handle_status note_status status_body
  handle_command-Quiet command g a b = if_cases (Quiet g) (command is "info") _ _ (quiet g _ refl) (
      if_cases (Quiet g) (command is "status") _ _ (quiet g _ refl) (
        if_cases (Quiet g) (command is "setup read" || command is "setup") _ _ (quiet g _ refl) (
          if_cases (Quiet g)
            (command is "ifconf read" || command is "network" || command is "network read") _ _
            (quiet g _ refl)
            (if_cases (Quiet g)
              (starts_with (codes "ifconf ") command && not (command is "ifconf read")) _ _
              (quiet g _ refl)
              (if_cases (Quiet g) (starts_with (codes "catradio read=") command) _ _
                (quiet g _ refl)
                (if_cases (Quiet g) (starts_with (codes "catradio ") command) _ _ (quiet g _ refl)
                  (rest-Quiet command g a b)))))))

  operate_asked :
      (g : BridgeState fl)
      → (handle_command fl now seq (codes "operate") aethersdr_compat status_profile g).1.desired
        ≡ record (g.desired) { amp_operate = some true }
  unfolding handle_command handle_rest handle_amp ask_amp text_eq starts_with strip_prefix
  operate_asked g = refl

  standby_asked :
      (g : BridgeState fl)
      → (handle_command fl now seq (codes "standby") aethersdr_compat status_profile g).1.desired
        ≡ record (g.desired) { amp_operate = some false }
  unfolding handle_command handle_rest handle_amp ask_amp text_eq starts_with strip_prefix
  standby_asked g = refl

  -- Of all the lines that a client may send, only `operate` and `standby` change the mailbox, and they
  -- change no more than the request for the amplifier.
  pub handle_command-asked :
      (command : Text) (g : BridgeState fl)
      → (handle_command fl now seq command aethersdr_compat status_profile g).1.desired
        ≡ record (g.desired) { amp_operate = asked command g.desired.amp_operate }
  unfolding asked
  handle_command-asked command g = elim (Bool-cases (command is "operate")) [
    | inl e ↦ rw (eq_of_text_eq command (codes "operate") e) (unfold text_eq in operate_asked g)
    | inr e ↦ elim (Bool-cases (command is "standby")) [
      | inl q ↦ rw (eq_of_text_eq command (codes "standby") q) (unfold text_eq in standby_asked g)
      | inr q ↦ rw (e, q) ((handle_command-Quiet command g e q).same)
    ]
  ]

  carried :
      (s : Kpa500Settings) (port : ControlPort) (wanted : Bool) (g' : BridgeState fl)
      (d : DesiredState)
      → g'.desired ≡ record d { amp_operate = some wanted }
      → let r = process_desired_control fl s port g' in
        (r.wires ≡ wires_for s (some wanted)) × (r.state.desired ≡ record d { amp_operate = none })
  carried s port wanted g' d e =
      let (wires, rest) = amp_control_wires fl s port g' in
      (
        wires ∙ ap (λ (d' : DesiredState). wires_for s d'.amp_operate) e,
        rest ∙ ap (λ (d' : DesiredState). record d' { amp_operate = none }) e,
      )

  -- After a client's `operate` or `standby` the driver's next pass writes exactly the control for it, if
  -- the settings allow it: RF risk for operate, control for standby, and no dry run. Otherwise the pass
  -- writes nothing, and either way the request is gone.
  pub amp_request_carried :
      (s : Kpa500Settings) (port : ControlPort) (wanted : Bool) (g : BridgeState fl)
      → let command = if wanted then codes "operate" else codes "standby" in
        let g' = (handle_command fl now seq command aethersdr_compat status_profile g).1 in
        let r = process_desired_control fl s port g' in
        (r.wires ≡ (
          if allows s wanted then (if wanted then codes "^OS1;" else codes "^OS0;") ∷ [] else []))
        × (r.state.desired ≡ record (g.desired) { amp_operate = none })
  amp_request_carried s port true g = carried s port true _ g.desired (operate_asked g)
  amp_request_carried s port false g = carried s port false _ g.desired (standby_asked g)
