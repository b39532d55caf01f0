-- ===== src/Tgxl/Requests.antt =====
-- The requests of the clients written out as commands, and the reading of them by the emulated tuner.
use elecraft_genius_bridge.Bridge.Float.{Float32}
use elecraft_genius_bridge.Bridge.State.{BridgeState}
use elecraft_genius_bridge.Protocol.{response_line}
use elecraft_genius_bridge.Emulator.{command_bool, command_token, trim_start_text, bool_word}
use elecraft_genius_bridge.Tgxl.Relay.{relay_request, note_relay, read_parts, read_movement}
use elecraft_genius_bridge.Tgxl.Control.{
  handle_control, number_after, set_bypass, autotune, activate_antenna, tune_relay,
}
use elecraft_genius_bridge.Tgxl.Command.{handle_command, handle_rest}
use elecraft_genius_bridge.Tgxl.Mailbox.{
  Request, tune, antenna, bypass, manual, IsValid, tune_valid, antenna_valid, bypass_valid,
  manual_valid, mail, request_text,
}
use elecraft_genius_bridge.Common.{
  Bool, Text, [], arith, false, is_digit, is_whitespace, parse_digits, parse_nat, parse_signed,
  parse_unsigned, refl, show_digits, show_nat, show_signed, split_whitespace, starts_with,
  strip_prefix, suc, text_eq, true, zero, ℕ, ◌≡◌, ◌≤◌,
}

module _ (fl : Float32) (seq : ℕ) (aethersdr_compat : Bool) (control_profile : Text) (now : ℕ)
    (state : BridgeState fl) where
  -- The command is accepted without a word, and its request lies in the mailbox.
  abbrev pub Accepts : Text → Request → Type 0
  Accepts command r =
      let (outcome, state') =
        handle_command fl seq command aethersdr_compat control_profile now state in
      (state'.desired ≡ mail r state.desired)
      × (outcome.response ≡ response_line seq 0 [])
      × (outcome.unknown ≡ false)
      × (outcome.unsupported ≡ false)

  antenna-Accepts : (n : ℕ) → 1 ≤ n → n ≤ 3 → Accepts (request_text (antenna n)) (antenna n)
  unfolding handle_command handle_rest handle_control activate_antenna number_after mail
      request_text text_eq starts_with strip_prefix trim_start_text parse_nat parse_digits
      parse_unsigned show_nat show_digits is_digit
  antenna-Accepts zero h k = absurd (omega arith)
  antenna-Accepts (suc zero) h k = (refl, refl, refl, refl)
  antenna-Accepts (suc (suc zero)) h k = (refl, refl, refl, refl)
  antenna-Accepts (suc (suc (suc zero))) h k = (refl, refl, refl, refl)
  antenna-Accepts (suc (suc (suc (suc n)))) h k = absurd (omega arith)

  bypass-Accepts : (b : Bool) → Accepts (request_text (bypass b)) (bypass b)
  unfolding handle_command handle_rest handle_control set_bypass command_bool command_token
      bool_word split_whitespace is_whitespace mail request_text text_eq starts_with strip_prefix
  bypass-Accepts true = (refl, refl, refl, refl)
  bypass-Accepts false = (refl, refl, refl, refl)

  tune-Accepts : Accepts (request_text tune) tune
  unfolding handle_command handle_rest handle_control autotune mail request_text text_eq starts_with
      strip_prefix
  tune-Accepts = (refl, refl, refl, refl)

  relay-Accepts :
      (n : ℕ) (negative : Bool) (steps : ℕ)
      → n ≤ 2
      → steps ≡ 1
      → let r = manual (record { relay = n; movement = (negative, steps) }) in
        Accepts (request_text r) r
  unfolding handle_command handle_rest handle_control tune_relay note_relay relay_request read_parts
      read_movement split_whitespace is_whitespace mail request_text text_eq starts_with
      strip_prefix parse_nat parse_digits parse_unsigned parse_signed show_nat show_digits
      show_signed is_digit
  relay-Accepts n negative zero h k = absurd (omega arith)
  relay-Accepts zero true (suc zero) h k = (refl, refl, refl, refl)
  relay-Accepts zero false (suc zero) h k = (refl, refl, refl, refl)
  relay-Accepts (suc zero) true (suc zero) h k = (refl, refl, refl, refl)
  relay-Accepts (suc zero) false (suc zero) h k = (refl, refl, refl, refl)
  relay-Accepts (suc (suc zero)) true (suc zero) h k = (refl, refl, refl, refl)
  relay-Accepts (suc (suc zero)) false (suc zero) h k = (refl, refl, refl, refl)
  relay-Accepts (suc (suc (suc n))) negative (suc zero) h k = absurd (omega arith)
  relay-Accepts n negative (suc (suc steps)) h k = absurd (omega arith)

  -- Every valid request, written as its command, is read back: it lies in the mailbox, next to what was
  -- there, and the answer is an empty success under the command's number.
  pub handle_command-request_text : (r : Request) → IsValid r → Accepts (request_text r) r
  handle_command-request_text _ tune_valid = tune-Accepts
  handle_command-request_text _ (antenna_valid n h k) = antenna-Accepts n h k
  handle_command-request_text _ (bypass_valid b) = bypass-Accepts b
  handle_command-request_text _ (manual_valid m h k) =
      relay-Accepts m.relay m.movement.0 m.movement.1 h k
