-- ===== src/Tgxl/Carried.antt =====
-- From the client to the tuner: what the driver writes to the port after a client's command for an antenna
-- or for the bypass.
use elecraft_genius_bridge.Bridge.Float.{Float32}
use elecraft_genius_bridge.Bridge.State.{BridgeState}
use elecraft_genius_bridge.Bridge.Desired.{default_desired}
use elecraft_genius_bridge.Kat500.Command.{
  Kat500Settings, command_allowed, antenna_wire, antenna_command,
}
use elecraft_genius_bridge.Kat500.Desired.{ControlPort, process_desired_control}
use elecraft_genius_bridge.Kat500.Desired.Switched.{
  antenna_wires, bypass_wires, switches-antenna, switches-bypass,
}
use elecraft_genius_bridge.Tgxl.Command.{handle_command}
use elecraft_genius_bridge.Tgxl.Mailbox.{
  antenna, antenna_valid, bypass, bypass_valid, mail, request_text,
}
use elecraft_genius_bridge.Tgxl.Requests.{handle_command-request_text}
use elecraft_genius_bridge.Common.{
  Bool, Option, Text, [], codes, if◌then◌else◌, not, show_nat, some, ℕ, ◌&&◌, ◌++◌, ◌∙◌, ◌∷◌, ◌≡◌,
  ◌≤◌, ap, arith, show_digits, suc, zero,
}

abbrev controls : Kat500Settings → Bool
controls s = not s.dry_run && s.allow_control

antenna_allowed :
    (s : Kat500Settings) (n : ℕ)
    → 1 ≤ n
    → n ≤ 3
    → antenna_wires s (some n)
      ≡ (if controls s then (codes "AN" ++ (show_nat n ++ codes ";")) ∷ [] else [])
unfolding command_allowed antenna_command antenna_wire show_nat show_digits
antenna_allowed s zero h k = absurd (omega arith)
antenna_allowed s (suc zero) h k = ground arith
antenna_allowed s (suc (suc zero)) h k = ground arith
antenna_allowed s (suc (suc (suc zero))) h k = ground arith
antenna_allowed s (suc (suc (suc (suc n)))) h k = absurd (omega arith)

bypass_allowed :
    (s : Kat500Settings) (b : Bool)
    → bypass_wires s (some b)
      ≡ (if controls s then (if b then codes "BYPB;" else codes "BYPN;") ∷ [] else [])
unfolding command_allowed
bypass_allowed s b = ground arith

module _ (fl : Float32) (debug : Option Text → Text) (s : Kat500Settings) (port : ControlPort)
    (seq : ℕ) (aethersdr_compat : Bool) (control_profile : Text) (now : ℕ)
    (state : BridgeState fl) where
  abbrev after : Text → BridgeState fl
  after command = (handle_command fl seq command aethersdr_compat control_profile now state).1

  -- With an empty mailbox, a client's command for one of the three antennas makes the driver's next pass
  -- write the wire of that antenna and nothing else, if the driver is in no dry run and may control the
  -- tuner; otherwise the pass writes nothing.
  pub antenna_carried :
      (n : ℕ)
      → 1 ≤ n
      → n ≤ 3
      → state.desired ≡ default_desired
      → (process_desired_control fl debug s port (after (request_text (antenna n)))).wires ≡ (
          if not s.dry_run && s.allow_control
          then (codes "AN" ++ (show_nat n ++ codes ";")) ∷ []
          else [])
  unfolding mail
  antenna_carried n h k e =
      let g = after (request_text (antenna n)) in
      let read =
        (handle_command-request_text fl seq aethersdr_compat control_profile now state (antenna n)
          (antenna_valid n h k)).0 in
      let auto = ap (λ d. d.tuner_autotune_requested) (read ∙ ap (mail (antenna n)) e) in
      let way = ap (λ d. d.tuner_bypass) (read ∙ ap (mail (antenna n)) e) in
      let chosen = ap (λ d. d.tuner_selected_antenna) (read ∙ ap (mail (antenna n)) e) in
      switches-antenna fl debug s port g auto way
      ∙ ap (antenna_wires s) chosen
      ∙ antenna_allowed s n h k

  -- The same for the bypass, whose wires are BYPB and BYPN.
  pub bypass_carried :
      (b : Bool)
      → state.desired ≡ default_desired
      → (process_desired_control fl debug s port (after (request_text (bypass b)))).wires ≡ (
          if not s.dry_run && s.allow_control
          then (if b then codes "BYPB;" else codes "BYPN;") ∷ []
          else [])
  unfolding mail command_allowed
  bypass_carried b e =
      let g = after (request_text (bypass b)) in
      let read =
        (handle_command-request_text fl seq aethersdr_compat control_profile now state (bypass b)
          (bypass_valid b)).0 in
      let auto = ap (λ d. d.tuner_autotune_requested) (read ∙ ap (mail (bypass b)) e) in
      let none_chosen = ap (λ d. d.tuner_selected_antenna) (read ∙ ap (mail (bypass b)) e) in
      let way = ap (λ d. d.tuner_bypass) (read ∙ ap (mail (bypass b)) e) in
      switches-bypass fl debug s port g auto none_chosen
      ∙ ap (bypass_wires s) way
      ∙ bypass_allowed s b
