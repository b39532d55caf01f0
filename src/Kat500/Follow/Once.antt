-- ===== src/Kat500/Follow/Once.antt =====
-- Two passes of the following on the same frequency.
use elecraft_genius_bridge.Bridge.Float.{Float32}
use elecraft_genius_bridge.Kat500.Command.{Kat500Settings}
use elecraft_genius_bridge.Kat500.Frequency.{frequency_context_wire}
use elecraft_genius_bridge.Kat500.Echo.{FrequencyFollowRead, send_frequency_context_confirmed}
use elecraft_genius_bridge.Bridge.Serial.{Window, done, Port}
use elecraft_genius_bridge.Bridge.State.{BridgeState}
use elecraft_genius_bridge.Kat500.Follow.{
  decide, decide_in_range, carry_out, finish, process_frequency_follow,
  refresh_tuning_state_if_needed,
}
use elecraft_genius_bridge.Kat500.Follow.Passes.{process_frequency_follow-MaySend}
use elecraft_genius_bridge.Common.{
  Bool-cases, Option-cases, Text, arith, inl, inr, none, some, ℕ, ◌≡◌,
}

module _ (fl : Float32) where
  -- What a pass leaves behind when it has sent a wire and the exchange has ended without an error.
  record Sent (g g' : BridgeState fl) (wire : Text) (r : FrequencyFollowRead) : Type 0 where
    same_frequency : g'.radio_context.frequency_hz ≡ g.radio_context.frequency_hz
    wire_noted : g'.radio_context.last_kat500_follow_wire ≡ some wire
    match_noted : g'.radio_context.last_kat500_follow_confirmation_match ≡ some r.confirmation_match

  decide_in_range-Sent :
      (s : Kat500Settings) (g : BridgeState fl) (hz : ℕ) (w : Text) (port : Port) {wire : Text}
      {r : FrequencyFollowRead}
      → (carry_out fl port (decide_in_range fl s g hz w)).1 ≡ some wire
      → send_frequency_context_confirmed port wire ≡ done r
      → Sent g (carry_out fl port (decide_in_range fl s g hz w)).0 wire r
  unfolding decide_in_range carry_out finish
  decide_in_range-Sent s g hz w port {wire} {r} h e = ground arith

  decide-Sent :
      (s : Kat500Settings) (g : BridgeState fl) (port : Port) {wire : Text}
      {r : FrequencyFollowRead}
      → (carry_out fl port (decide fl s g)).1 ≡ some wire
      → send_frequency_context_confirmed port wire ≡ done r
      → Sent g (carry_out fl port (decide fl s g)).0 wire r
  unfolding decide carry_out
  decide-Sent s g port {wire} {r} h e = elim (Option-cases g.radio_context.frequency_hz) [
    | inl n ↦ absurd (ground arith)
    | inr (hz, n) ↦ elim (Option-cases (frequency_context_wire (some hz))) [
      | inl q ↦ absurd (ground arith)
      | inr (w, q) ↦
          let kept = decide_in_range-Sent s g hz w port {wire = wire} {r = r} (ground arith) e in
          record {
            same_frequency = ground (arith, kept.same_frequency);
            wire_noted = ground (arith, kept.wire_noted);
            match_noted = ground (arith, kept.match_noted);
          }
    ]
  ]

  refresh-radio_context :
      (poll : Window) (now : ℕ) (g : BridgeState fl)
      → (refresh_tuning_state_if_needed fl poll now g).radio_context ≡ g.radio_context
  unfolding refresh_tuning_state_if_needed
  refresh-radio_context poll now g = ground arith

  pass-Sent :
      (s : Kat500Settings) (poll : Window) (now : ℕ) (port : Port) (g : BridgeState fl)
      {wire : Text} {r : FrequencyFollowRead}
      → (process_frequency_follow fl s poll now port g).1 ≡ some wire
      → send_frequency_context_confirmed port wire ≡ done r
      → Sent
          (refresh_tuning_state_if_needed fl poll now g)
          (process_frequency_follow fl s poll now port g).0
          wire
          r
  unfolding process_frequency_follow
  pass-Sent s poll now port g {wire} {r} h e = elim (Bool-cases s.follow_flex_frequency) [
    | inl f ↦
        let sent =
          decide-Sent s (refresh_tuning_state_if_needed fl poll now g) port {wire = wire} {r = r}
            (ground arith) e in
        record {
          same_frequency = ground (arith, sent.same_frequency);
          wire_noted = ground (arith, sent.wire_noted);
          match_noted = ground (arith, sent.match_noted);
        }
    | inr f ↦ absurd (ground arith)
  ]

  -- Once an exchange has ended without an error, the next pass sends nothing while the radio stays on the
  -- frequency, also if the tuner has not confirmed it, which the first pass notes.
  pub sent_only_once :
      (s : Kat500Settings) (poll poll' : Window) (now now' : ℕ) (port port' : Port)
      (g : BridgeState fl) (wire : Text) (r : FrequencyFollowRead)
      → (process_frequency_follow fl s poll now port g).1 ≡ some wire
      → send_frequency_context_confirmed port wire ≡ done r
      → let g' = (process_frequency_follow fl s poll now port g).0 in
        (g'.radio_context.last_kat500_follow_confirmation_match ≡ some r.confirmation_match)
        × ((process_frequency_follow fl s poll' now' port' g').1 ≡ none)
  sent_only_once s poll poll' now now' port port' g wire r h e =
      let first = process_frequency_follow fl s poll now port g in
      let sent = pass-Sent s poll now port g {wire = wire} {r = r} h e in
      let may = process_frequency_follow-MaySend fl s poll now port g h in
      (
        sent.match_noted,
        elim (Option-cases (process_frequency_follow fl s poll' now' port' first.0).1) [
          | inl n ↦ n
          | inr (again, n) ↦
              let more = process_frequency_follow-MaySend fl s poll' now' port' first.0 n in
              let kept = refresh-radio_context poll' now' first.0 in
              absurd (
                ground (
                  arith, more.of_radio, more.new_wire, may.of_radio, kept, sent.same_frequency,
                  sent.wire_noted,
                ))
        ],
      )
