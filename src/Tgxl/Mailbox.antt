-- ===== src/Tgxl/Mailbox.antt =====
-- What the clients of the emulated tuner put into the mailbox of the driver.
use elecraft_genius_bridge.Bridge.Float.{Float32}
use elecraft_genius_bridge.Bridge.State.{BridgeState}
use elecraft_genius_bridge.Bridge.Desired.{DesiredState, ManualTuneRequest}
use elecraft_genius_bridge.Emulator.{command_bool, trim_start_text}
use elecraft_genius_bridge.Tgxl.Relay.{
  relay_request, RelayResult, refused, wanted, note_relay, read_parts, read_movement,
}
use elecraft_genius_bridge.Tgxl.Status.{status_line}
use elecraft_genius_bridge.Tgxl.Flexradio.{record_flexradio_set}
use elecraft_genius_bridge.Tgxl.Control.{
  Handled, handle_control, number_after, set_operate, set_bypass, autotune, activate_antenna,
  activate_channel, tune_relay,
}
use elecraft_genius_bridge.Tgxl.Command.{handle_command, handle_rest}
use elecraft_genius_bridge.Common.{
  Bool, Option, Option-cases, String, Text, arith, codes, if_cases, if◌then◌else◌, inl, inr, none,
  parse_nat, refl, show_nat, show_signed, some, split_whitespace, true, u8_max, ℕ, ◌++◌, ◌+◌, ◌≡◌,
  ◌≤◌, starts_with, ◌is◌, ◌||◌,
}

pub data Request : Type 0 where
  tune : Request
  antenna : ℕ → Request
  bypass : Bool → Request
  manual : ManualTuneRequest → Request

-- The tuner has three antennas and three relays, and a relay moves one step.
pub data IsValid : Request → Type 0 where
  tune_valid : IsValid tune
  antenna_valid : (n : ℕ) → 1 ≤ n → n ≤ 3 → IsValid (antenna n)
  bypass_valid : (b : Bool) → IsValid (bypass b)
  manual_valid : (m : ManualTuneRequest) → m.relay ≤ 2 → m.movement.1 ≡ 1 → IsValid (manual m)

unfoldable pub mail : Request → DesiredState → DesiredState
mail tune d = record d { tuner_autotune_requested = true }
mail (antenna n) d = record d { tuner_selected_antenna = some n }
mail (bypass b) d = record d { tuner_bypass = some b }
mail (manual m) d = record d { tuner_manual_tune = some m }

-- The command that a client sends for a request. It counts the relays from one.
unfoldable pub request_text : Request → Text
request_text tune = codes "autotune"
request_text (antenna n) = codes "activate ant=" ++ show_nat n
request_text (bypass b) = if b then codes "bypass set=1" else codes "bypass set=0"
request_text (manual m) =
    codes "tune relay=" ++ (show_nat (m.relay + 1) ++ (codes " move=" ++ show_signed m.movement))

number_after-range :
    (prefix : String) (most : ℕ) (command : Text) {n : ℕ}
    → number_after prefix most command ≡ some n
    → (1 ≤ n) × (n ≤ most)
unfolding number_after
number_after-range prefix most command {n} h =
    elim (Option-cases (parse_nat u8_max (trim_start_text (codes prefix) command))) [
      | inl e ↦ absurd (ground arith)
      | inr (m, e) ↦ ground arith
    ]

read_movement-wanted :
    (relay : ℕ) (o : Option (Bool × ℕ)) {m : ManualTuneRequest}
    → read_movement relay o ≡ wanted m
    → (m.relay ≤ 2) × (m.movement.1 ≡ 1)
unfolding read_movement
read_movement-wanted relay none {m} h = absurd (ground arith)
read_movement-wanted relay (some v) {m} h = ground arith

relay_request-wanted :
    (command : Text) {m : ManualTuneRequest}
    → relay_request command ≡ wanted m
    → (m.relay ≤ 2) × (m.movement.1 ≡ 1)
unfolding relay_request
relay_request-wanted command {m} h =
    let parts = read_parts (split_whitespace command) none none in
    elim (Option-cases parts.0) [
      | inl e ↦ absurd (ground arith)
      | inr (n, e) ↦ read_movement-wanted n parts.1 {m = m} (ground arith)
    ]

module _ (fl : Float32) (seq : ℕ) (command : Text) (aethersdr_compat : Bool)
    (control_profile : Text) where
  abbrev H : Type 0
  H = Handled fl seq command aethersdr_compat control_profile

  -- A command leaves the mailbox as it is, or puts a valid request into it.
  pub data Mails (state : BridgeState fl) (h : H) : Type 0 where
    none_mailed : h.1.desired ≡ state.desired → Mails state h
    mailed : (r : Request) → IsValid r → h.1.desired ≡ mail r state.desired → Mails state h

  module _ (state : BridgeState fl) where
    abbrev Sound : H → Type 0
    Sound h = Mails state h

    set_operate-Mails :
        (o : Option Bool)
        → Sound (set_operate fl seq command aethersdr_compat control_profile o state)
    unfolding set_operate
    set_operate-Mails none = none_mailed refl
    set_operate-Mails (some b) = none_mailed refl

    set_bypass-Mails :
        (o : Option Bool)
        → Sound (set_bypass fl seq command aethersdr_compat control_profile o state)
    unfolding set_bypass mail
    set_bypass-Mails none = none_mailed refl
    set_bypass-Mails (some b) = mailed (bypass b) (bypass_valid b) refl

    activate_antenna-Mails :
        (o : Option ℕ)
        → ((n : ℕ) → o ≡ some n → (1 ≤ n) × (n ≤ 3))
        → Sound (activate_antenna fl seq command aethersdr_compat control_profile o state)
    unfolding activate_antenna mail
    activate_antenna-Mails none h = none_mailed refl
    activate_antenna-Mails (some n) h =
        mailed (antenna n) (antenna_valid n (h _ refl).0 (h _ refl).1) refl

    activate_channel-Mails :
        (o : Option ℕ)
        → Sound (activate_channel fl seq command aethersdr_compat control_profile o state)
    unfolding activate_channel
    activate_channel-Mails none = none_mailed refl
    activate_channel-Mails (some b) = none_mailed refl

    tune_relay-Mails :
        (r : RelayResult)
        → ((m : ManualTuneRequest) → r ≡ wanted m → (m.relay ≤ 2) × (m.movement.1 ≡ 1))
        → Sound (tune_relay fl seq command aethersdr_compat control_profile r state)
    unfolding tune_relay mail note_relay
    tune_relay-Mails (refused e) h = none_mailed refl
    tune_relay-Mails (wanted m) h =
        mailed (manual m) (manual_valid m (h _ refl).0 (h _ refl).1) refl

    handle_control-Mails :
        (now : ℕ) → Sound (handle_control fl seq command aethersdr_compat control_profile now state)
    unfolding handle_control autotune mail
    handle_control-Mails now =
        if_cases Sound (starts_with (codes "operate set=") command) _ _
          (set_operate-Mails (command_bool command (codes "set")))
          (if_cases Sound (starts_with (codes "bypass set=") command) _ _
            (set_bypass-Mails (command_bool command (codes "set")))
            (if_cases Sound (command is "autotune") _ _ (mailed tune tune_valid refl) (
              if_cases Sound (starts_with (codes "activate ant=") command) _ _
                (activate_antenna-Mails (number_after "activate ant=" 3 command)
                  (λ n h. number_after-range "activate ant=" 3 command h))
                (if_cases Sound (starts_with (codes "activate ch=") command) _ _
                  (activate_channel-Mails (number_after "activate ch=" 2 command))
                  (if_cases Sound (starts_with (codes "tune relay=") command) _ _
                    (tune_relay-Mails (relay_request command)
                      (λ m h. relay_request-wanted command h))
                    (none_mailed refl))))))

    handle_rest-Mails :
        (now : ℕ) → Sound (handle_rest fl seq command aethersdr_compat control_profile now state)
    unfolding handle_rest record_flexradio_set
    handle_rest-Mails now = if_cases Sound (command is "flexradio list") _ _ (none_mailed refl) (
        if_cases Sound (command is "flexradio read") _ _ (none_mailed refl) (
          if_cases Sound (starts_with (codes "flexradio get ") command) _ _ (none_mailed refl) (
            if_cases Sound (starts_with (codes "flexradio set ") command) _ _ (none_mailed refl) (
              if_cases Sound (command is "save") _ _ (none_mailed refl)
                (handle_control-Mails now)))))

    -- Whatever line a client sends, it leaves the mailbox as it is or adds one valid request to it: a
    -- tune, an antenna from 1 to 3, the bypass, or a step of one of the three relays.
    pub handle_command-Mails :
        (now : ℕ)
        → Mails state (handle_command fl seq command aethersdr_compat control_profile now state)
    unfolding handle_command status_line
    handle_command-Mails now =
        if_cases Sound (starts_with (codes "auth ") command) _ _ (none_mailed refl) (
          if_cases Sound (command is "btl") _ _ (none_mailed refl) (
            if_cases Sound (command is "info") _ _ (none_mailed refl) (
              if_cases Sound (command is "status") _ _ (none_mailed refl) (
                if_cases Sound
                  (command is "ifconf read" || command is "network" || command is "network read") _
                  _ (none_mailed refl)
                  (if_cases Sound (starts_with (codes "ifconf set ") command) _ _ (none_mailed refl)
                    (if_cases Sound (command is "setup read") _ _ (none_mailed refl) (
                      if_cases Sound (starts_with (codes "setup set ") command) _ _
                        (none_mailed refl)
                        (if_cases Sound (command is "catradio read") _ _ (none_mailed refl) (
                          if_cases Sound (starts_with (codes "catradio get ") command) _ _
                            (none_mailed refl)
                            (if_cases Sound (starts_with (codes "catradio set ") command) _ _
                              (none_mailed refl) (handle_rest-Mails now)))))))))))
