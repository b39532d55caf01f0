-- ===== src/Tgxl/Answers.antt =====
-- What the emulated tuner answers.
use elecraft_genius_bridge.Bridge.Float.{Float32}
use elecraft_genius_bridge.Bridge.State.{BridgeState}
use elecraft_genius_bridge.Protocol.{response_line}
use elecraft_genius_bridge.Emulator.{command_bool}
use elecraft_genius_bridge.Tgxl.Relay.{relay_request, RelayResult, refused, wanted}
use elecraft_genius_bridge.Tgxl.Flexradio.{
  flexradio_list_lines, flexradio_get_line, flexradio_read_lines,
}
use elecraft_genius_bridge.Tgxl.Status.{status_line, status_body_from_state}
use elecraft_genius_bridge.Tgxl.Control.{
  Handled, handle_control, number_after, set_operate, set_bypass, autotune, activate_antenna,
  activate_channel, tune_relay,
}
use elecraft_genius_bridge.Tgxl.Command.{handle_command, handle_rest}
use elecraft_genius_bridge.Common.{
  Bool, Option, Text, [], codes, eq_of_text_eq, false, if_cases, if_split, inl, inr, none, refl,
  show_nat, some, true, ℕ, ◌++◌, ◌is◌, ◌∷◌, ◌≡◌, ◌⊎◌, starts_with, ◌||◌,
}

module _ (fl : Float32) (seq : ℕ) (command : Text) (aethersdr_compat : Bool)
    (control_profile : Text) where
  abbrev H : Type 0
  H = Handled fl seq command aethersdr_compat control_profile

  -- A command is accepted, and answered under its number with code 0 or with the status; or it is
  -- refused with code 2 or 5, or unknown with code 1, and then it changes nothing.
  pub data Answered (state : BridgeState fl) (h : H) : Type 0 where
    accepted :
        (body : Text)
        → h.0.response ≡ response_line seq 0 body
        → h.0.unknown ≡ false
        → h.0.unsupported ≡ false
        → Answered state h
    status :
        (body : Text)
        → command ≡ codes "status"
        → h.0.response ≡ b'S' ∷ (show_nat seq ++ (codes "|status " ++ body))
        → h.0.unknown ≡ false
        → h.0.unsupported ≡ false
        → Answered state h
    rejected :
        (code : ℕ) (body : Text)
        → (code ≡ 2) ⊎ (code ≡ 5)
        → h.0.response ≡ response_line seq code body
        → h.0.pushes ≡ []
        → h.0.unknown ≡ false
        → h.0.unsupported ≡ true
        → h.1 ≡ state
        → Answered state h
    unknown :
        (body : Text)
        → h.0.response ≡ response_line seq 1 body
        → h.0.pushes ≡ []
        → h.0.unknown ≡ true
        → h.0.unsupported ≡ false
        → h.1 ≡ state
        → Answered state h

  module _ (state : BridgeState fl) where
    abbrev Fine : H → Type 0
    Fine h = Answered state h

    set_operate-Answered :
        (o : Option Bool)
        → Fine (set_operate fl seq command aethersdr_compat control_profile o state)
    unfolding set_operate
    set_operate-Answered none = rejected 2 _ (inl refl) refl refl refl refl refl
    set_operate-Answered (some b) = accepted _ refl refl refl

    set_bypass-Answered :
        (o : Option Bool)
        → Fine (set_bypass fl seq command aethersdr_compat control_profile o state)
    unfolding set_bypass
    set_bypass-Answered none = rejected 2 _ (inl refl) refl refl refl refl refl
    set_bypass-Answered (some b) = accepted _ refl refl refl

    activate_antenna-Answered :
        (o : Option ℕ)
        → Fine (activate_antenna fl seq command aethersdr_compat control_profile o state)
    unfolding activate_antenna
    activate_antenna-Answered none = rejected 2 _ (inl refl) refl refl refl refl refl
    activate_antenna-Answered (some b) = accepted _ refl refl refl

    activate_channel-Answered :
        (o : Option ℕ)
        → Fine (activate_channel fl seq command aethersdr_compat control_profile o state)
    unfolding activate_channel
    activate_channel-Answered none = rejected 2 _ (inl refl) refl refl refl refl refl
    activate_channel-Answered (some b) = accepted _ refl refl refl

    tune_relay-Answered :
        (r : RelayResult)
        → Fine (tune_relay fl seq command aethersdr_compat control_profile r state)
    unfolding tune_relay
    tune_relay-Answered (refused e) = rejected 2 _ (inl refl) refl refl refl refl refl
    tune_relay-Answered (wanted m) = accepted _ refl refl refl

    handle_control-Answered :
        (now : ℕ) → Fine (handle_control fl seq command aethersdr_compat control_profile now state)
    unfolding handle_control autotune
    handle_control-Answered now =
        if_cases Fine (starts_with (codes "operate set=") command) _ _
          (set_operate-Answered (command_bool command (codes "set")))
          (if_cases Fine (starts_with (codes "bypass set=") command) _ _
            (set_bypass-Answered (command_bool command (codes "set")))
            (if_cases Fine (command is "autotune") _ _ (accepted [] refl refl refl) (
              if_cases Fine (starts_with (codes "activate ant=") command) _ _
                (activate_antenna-Answered (number_after "activate ant=" 3 command))
                (if_cases Fine (starts_with (codes "activate ch=") command) _ _
                  (activate_channel-Answered (number_after "activate ch=" 2 command))
                  (if_cases Fine (starts_with (codes "tune relay=") command) _ _
                    (tune_relay-Answered (relay_request command))
                    (unknown _ refl refl refl refl refl))))))

    handle_rest-Answered :
        (now : ℕ) → Fine (handle_rest fl seq command aethersdr_compat control_profile now state)
    unfolding handle_rest flexradio_list_lines flexradio_get_line flexradio_read_lines
    handle_rest-Answered now =
        if_cases Fine (command is "flexradio list") _ _ (accepted _ refl refl refl) (
          if_cases Fine (command is "flexradio read") _ _ (accepted _ refl refl refl) (
            if_cases Fine (starts_with (codes "flexradio get ") command) _ _
              (accepted _ refl refl refl)
              (if_cases Fine (starts_with (codes "flexradio set ") command) _ _
                (accepted _ refl refl refl)
                (if_cases Fine (command is "save") _ _ (accepted [] refl refl refl)
                  (handle_control-Answered now)))))

    status_line-shape :
        (status_line fl seq state aethersdr_compat control_profile).0
        ≡ b'S'
          ∷ (show_nat seq
              ++ (codes "|status "
                  ++ (status_body_from_state fl state aethersdr_compat control_profile ++ 10 ∷ [])))
    unfolding status_line
    status_line-shape = refl

    -- Every command has one of four answers. It is accepted with code 0, or with the status line, which
    -- only the command for it has; or it is refused with code 2 or 5, or unknown with code 1, and then
    -- nothing is pushed and the state stays as it is.
    pub handle_command-Answered :
        (now : ℕ)
        → Answered state (handle_command fl seq command aethersdr_compat control_profile now state)
    unfolding handle_command
    handle_command-Answered now =
        if_cases Fine (starts_with (codes "auth ") command) _ _ (accepted _ refl refl refl) (
          if_cases Fine (command is "btl") _ _ (rejected 5 _ (inr refl) refl refl refl refl refl) (
            if_cases Fine (command is "info") _ _ (accepted _ refl refl refl) (
              if_split Fine (command is "status") _ _
                (λ e.
                  status
                    (status_body_from_state fl state aethersdr_compat control_profile ++ 10 ∷ [])
                    (eq_of_text_eq command (codes "status") e) status_line-shape refl refl)
                λ e.
                  if_cases Fine
                    (command is "ifconf read" || command is "network" || command is "network read")
                    _ _ (accepted _ refl refl refl)
                    (if_cases Fine (starts_with (codes "ifconf set ") command) _ _
                      (accepted _ refl refl refl)
                      (if_cases Fine (command is "setup read") _ _ (accepted _ refl refl refl) (
                        if_cases Fine (starts_with (codes "setup set ") command) _ _
                          (accepted [] refl refl refl)
                          (if_cases Fine (command is "catradio read") _ _
                            (accepted _ refl refl refl)
                            (if_cases Fine (starts_with (codes "catradio get ") command) _ _
                              (accepted _ refl refl refl)
                              (if_cases Fine (starts_with (codes "catradio set ") command) _ _
                                (accepted [] refl refl refl) (handle_rest-Answered now))))))))))
