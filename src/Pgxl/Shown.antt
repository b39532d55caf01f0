-- ===== src/Pgxl/Shown.antt =====
-- The state that the status of the emulated amplifier shows, and the one that the bridge notes.
use mathlib.Core.List.{append_assoc}
use elecraft_genius_bridge.Bridge.Float.{Float32}
use elecraft_genius_bridge.Bridge.State.{BridgeState}
use elecraft_genius_bridge.Bridge.Amp.{
  AmpState, AmpOperatingState, standby, idle, operate, transmit_a, transmit_b, power_up, fault,
  pgxl_state,
}
use elecraft_genius_bridge.Protocol.{response_line}
use elecraft_genius_bridge.Pgxl.Status.{
  status_field, find_field, waits, amp_has_recent_poll, is_faulted, advertised_state_from_amp,
  shown_state, status_body_from_amp, status_body,
}
use elecraft_genius_bridge.Pgxl.Command.{handle_command, handle_status, note_status}
use elecraft_genius_bridge.Common.{
  Bool, String, Text, codes, false, if_cases, is_whitespace, refl, some, split_once,
  split_whitespace-word, text_eq, true, ℕ, ◌++◌, ◌is◌, ◌∷◌, ◌≡◌, is_word, not, ◌&&◌,
}

abbrev IsWord : Text → Type 0
IsWord w = is_word w ≡ true

status_field-first :
    (w rest : Text)
    → IsWord w
    → status_field (codes "state=" ++ (w ++ b' ' ∷ rest)) (codes "state") ≡ some w
unfolding status_field find_field split_once text_eq is_whitespace
status_field-first w rest h = rw (split_whitespace-word b's' (codes "tate=" ++ w) rest h) refl

status_field-more :
    (w rest more : Text)
    → IsWord w
    → status_field ((codes "state=" ++ (w ++ b' ' ∷ rest)) ++ more) (codes "state") ≡ some w
status_field-more w rest more h =
    rw (append_assoc w (b' ' ∷ rest) more) (status_field-first w (rest ++ more) h)

pgxl_state-IsWord : (s : AmpOperatingState) → IsWord (codes (pgxl_state s))
unfolding pgxl_state is_whitespace
pgxl_state-IsWord standby = refl
pgxl_state-IsWord idle = refl
pgxl_state-IsWord operate = refl
pgxl_state-IsWord transmit_a = refl
pgxl_state-IsWord transmit_b = refl
pgxl_state-IsWord power_up = refl
pgxl_state-IsWord fault = refl

module _ (fl : Float32) where
  shown_state-IsWord :
      (now : ℕ) (amp : AmpState (fl.Float)) (status_profile : Text)
      → IsWord (codes (shown_state fl now amp status_profile))
  unfolding shown_state advertised_state_from_amp is_whitespace
  shown_state-IsWord now amp status_profile =
      let P = λ (s : String). IsWord (codes s) in
      if_cases P (status_profile is "status_realistic_operate") _ _ refl (
        if_cases P (status_profile is "status_realistic_standby") _ _ refl (
          if_cases P
            (not amp.first_poll_completed
              && waits fl amp.startup_state_policy
              && not (amp_has_recent_poll fl now amp))
            "UNKNOWN" _ refl
            (if_cases P (is_faulted fl amp) "FAULT" (pgxl_state amp.state) refl
              (pgxl_state-IsWord amp.state))))

  -- Whatever the amplifier's state, readings and fault text, the field `state` of the status gives back
  -- the state that the status shows.
  pub status_field-status_body :
      (now : ℕ) (amp : AmpState (fl.Float)) (aethersdr_compat : Bool) (status_profile : Text)
      → status_field
          (status_body_from_amp fl now amp aethersdr_compat status_profile)
          (codes "state")
        ≡ some (codes (shown_state fl now amp status_profile))
  unfolding status_body_from_amp
  status_field-status_body now amp true status_profile =
      status_field-first (codes (shown_state fl now amp status_profile)) _
        (shown_state-IsWord now amp status_profile)
  status_field-status_body now amp false status_profile =
      status_field-more (codes (shown_state fl now amp status_profile)) _ _
        (shown_state-IsWord now amp status_profile)

  -- The answer to `status` shows a state, and the bridge notes that very state, and when it was shown.
  pub status_noted :
      (now seq : ℕ) (aethersdr_compat : Bool) (status_profile : Text) (g : BridgeState fl)
      → let h = handle_command fl now seq (codes "status") aethersdr_compat status_profile g in
        (body : Text) × (h.0.response ≡ response_line seq 0 body)
        × (status_field body (codes "state")
            ≡ some (codes (shown_state fl now g.amp status_profile)))
        × (h.1.flex_injection.last_pgxl_status_state
            ≡ some (codes (shown_state fl now g.amp status_profile)))
        × (h.1.flex_injection.last_pgxl_status_state_at_ms ≡ some now)
  unfolding handle_command handle_status note_status status_body text_eq
  status_noted now seq aethersdr_compat status_profile g =
      let body = status_body_from_amp fl now g.amp aethersdr_compat status_profile in
      let shown = status_field-status_body now g.amp aethersdr_compat status_profile in
      (body, refl, shown, rw shown refl, refl)
