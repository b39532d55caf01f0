-- ===== src/Kat500/Poll/Standing.antt =====
-- What a pass of queries leaves of the tuner's state, whatever the port sends.
use elecraft_genius_bridge.Bridge.Float.{Float32}
use elecraft_genius_bridge.Bridge.State.{BridgeState}
use elecraft_genius_bridge.Bridge.Capability.{push_capability}
use elecraft_genius_bridge.Bridge.Tuner.{TunerState, connected, degraded}
use elecraft_genius_bridge.Bridge.Serial.{Window}
use elecraft_genius_bridge.Kat500.Command.{ElecraftCommand}
use elecraft_genius_bridge.Kat500.Response.{parse_kat500_response}
use elecraft_genius_bridge.Kat500.Response.Connected.{parse_kat500_response-connection_state}
use elecraft_genius_bridge.Kat500.Poll.{
  CommandOutcome, read_only_poll_commands, ask_all, any_response, PollClock, note_responses,
  begin_poll, read_lines, read_response, read_outcomes, poll_status_on_port,
}
use elecraft_genius_bridge.Common.{
  Bool, List, Option, Text, [], false, none, refl, some, true, ◌↔◌, ◌∙◌, ◌∷◌, ◌≡◌, sym,
}

module _ (fl : Float32) where
  open fl use {Float}

  read_lines-connection_state :
      (lines : List Text) (t : TunerState Float)
      → (read_lines fl lines t).connection_state ≡ t.connection_state
  unfolding read_lines
  read_lines-connection_state [] t = refl
  read_lines-connection_state (line ∷ lines) t =
      read_lines-connection_state lines (parse_kat500_response fl line t)
      ∙ parse_kat500_response-connection_state fl line t

  read_response-connection_state :
      (c : ElecraftCommand) (o : Option Text) (t : TunerState Float)
      → (read_response fl c o t).connection_state ≡ t.connection_state
  unfolding read_response
  read_response-connection_state c none t = refl
  read_response-connection_state c (some r) t =
      parse_kat500_response-connection_state fl r
        (record t { capabilities = push_capability t.capabilities c.label })

  read_outcomes-connection_state :
      (os : List CommandOutcome) (t : TunerState Float)
      → (read_outcomes fl os t).connection_state ≡ t.connection_state
  unfolding read_outcomes
  read_outcomes-connection_state [] t = refl
  read_outcomes-connection_state (o ∷ os) t =
      let read = read_response fl o.command o.response t in
      read_outcomes-connection_state os (read_lines fl o.unsolicited read)
      ∙ (read_lines-connection_state o.unsolicited read
          ∙ read_response-connection_state o.command o.response t)

  note_responses-degraded :
      (clock : PollClock) (b : Bool) (t : TunerState Float)
      → t.connection_state ≡ connected
      → ((note_responses fl clock b t).connection_state ≡ degraded) ↔ (b ≡ false)
  unfolding note_responses
  note_responses-degraded clock true t h = (λ e. cc, λ e. cc)
  note_responses-degraded clock false t h = (λ e. refl, λ e. refl)

  begin_poll-degraded :
      (clock : PollClock) (os : List CommandOutcome) (t : TunerState Float)
      → ((begin_poll fl clock os t).connection_state ≡ degraded) ↔ (any_response os ≡ false)
  unfolding begin_poll
  begin_poll-degraded clock os t = note_responses-degraded clock (any_response os) _ refl

  -- Whatever the tuner sends, the connection counts as degraded after a pass of queries exactly if none
  -- was answered. The requests in the mailbox stay.
  pub poll_degraded_iff :
      (clock : PollClock) (port : ElecraftCommand → Window) (g : BridgeState fl)
      → let r = poll_status_on_port fl clock port g in
        ((r.1.tuner.connection_state ≡ degraded) ↔ (any_response r.0 ≡ false))
        × (r.1.desired ≡ g.desired)
  unfolding poll_status_on_port
  poll_degraded_iff clock port g =
      let outcomes = ask_all port read_only_poll_commands in
      let begun = begin_poll fl clock outcomes g.tuner in
      let begins = begin_poll-degraded clock outcomes g.tuner in
      let kept = read_outcomes-connection_state outcomes begun in
      ((λ e. begins.0 (sym kept ∙ e), λ e. kept ∙ begins.1 e), refl)
