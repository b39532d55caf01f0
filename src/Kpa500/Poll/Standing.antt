-- ===== src/Kpa500/Poll/Standing.antt =====
-- What a pass of queries leaves of the amplifier's state, whatever the port sends.
use elecraft_genius_bridge.Bridge.Float.{Float32}
use elecraft_genius_bridge.Bridge.State.{BridgeState}
use elecraft_genius_bridge.Bridge.Amp.{AmpState}
use elecraft_genius_bridge.Bridge.Capability.{push_capability}
use elecraft_genius_bridge.Bridge.Serial.{Window}
use elecraft_genius_bridge.Kpa500.Command.{ElecraftCommand}
use elecraft_genius_bridge.Kpa500.Response.Untouched.{parse_kpa500_response-Same}
use elecraft_genius_bridge.Kpa500.Response.Agreement.{Agrees, parse_kpa500_response-Agrees}
use elecraft_genius_bridge.Kpa500.Poll.{
  CommandOutcome, read_line, read_lines, read_response, read_outcomes, missing, poll_status_on_port,
  PortName, ask_all, PollClock, read_only_poll_commands, required, degraded, any_response,
  begin_poll, note_responses, finish_poll, connected,
}
use elecraft_genius_bridge.Kpa500.Poll.Missing.{IsComplete, missing_none, missing-IsComplete}
use elecraft_genius_bridge.Common.{
  List, Option, Text, [], none, some, ℕ, ◌∷◌, ◌≡◌, ◌∙◌, false, refl, true, ◌↔◌, arith, Bool, ◌≢◌,
  sym,
}

module _ (fl : Float32) where
  -- What holds throughout the reading of the answers.
  module _ (start : AmpState (fl.Float)) where
    record Reads (g : BridgeState fl) : Type 0 where
      agrees : Agrees fl g.amp
      connection : g.amp.connection_state ≡ start.connection_state
      completed : g.amp.first_poll_completed ≡ start.first_poll_completed

    read_line-Reads :
        (now : ℕ) (line : Text) (g : BridgeState fl) → Reads g → Reads (read_line fl now line g)
    unfolding read_line
    read_line-Reads now line g h =
        let before = record (g.amp) { last_raw_response = some line } in
        let same = parse_kpa500_response-Same fl line before in
        let was : Agrees fl before = record {
          operates = h.agrees.operates;
          stands_by = h.agrees.stands_by;
        } in
        record {
          agrees = parse_kpa500_response-Agrees fl line before was;
          connection = same.connection ∙ h.connection;
          completed = same.completed ∙ h.completed;
        }

    read_lines-Reads :
        (now : ℕ) (lines : List Text) (g : BridgeState fl)
        → Reads g
        → Reads (read_lines fl now lines g)
    unfolding read_lines
    read_lines-Reads now [] g h = h
    read_lines-Reads now (line ∷ lines) g h =
        read_lines-Reads now lines (read_line fl now line g) (read_line-Reads now line g h)

    read_response-Reads :
        (now : ℕ) (c : ElecraftCommand) (o : Option Text) (g : BridgeState fl)
        → Reads g
        → Reads (read_response fl now c o g)
    unfolding read_response
    read_response-Reads now c none g h = h
    read_response-Reads now c (some r) g h =
        let named = record g {
          amp = record (g.amp) {
            capabilities = push_capability g.amp.capabilities c.label;
            last_successful_command = some c.label;
          };
        } in
        read_line-Reads now r named (record {
          agrees = record { operates = h.agrees.operates; stands_by = h.agrees.stands_by };
          connection = h.connection;
          completed = h.completed;
        })

    read_outcomes-Reads :
        (now : ℕ) (os : List CommandOutcome) (g : BridgeState fl)
        → Reads g
        → Reads (read_outcomes fl now os g)
    unfolding read_outcomes
    read_outcomes-Reads now [] g h = h
    read_outcomes-Reads now (o ∷ os) g h =
        read_outcomes-Reads now os _
          (read_response-Reads now o.command o.response _ (read_lines-Reads now o.unsolicited g h))

  note_responses-Agrees :
      (clock : PollClock) (b : Bool) (a : AmpState (fl.Float))
      → Agrees fl a
      → Agrees fl (note_responses fl clock b a)
  unfolding note_responses
  note_responses-Agrees clock true a h = record { operates = h.operates; stands_by = h.stands_by }
  note_responses-Agrees clock false a h = record { operates = h.operates; stands_by = h.stands_by }

  note_responses-completed :
      (clock : PollClock) (b : Bool) (a : AmpState (fl.Float))
      → (note_responses fl clock b a).first_poll_completed ≡ a.first_poll_completed
  unfolding note_responses
  note_responses-completed clock true a = refl
  note_responses-completed clock false a = refl

  note_responses-degraded :
      (clock : PollClock) (b : Bool) (a : AmpState (fl.Float))
      → a.connection_state ≡ connected
      → ((note_responses fl clock b a).connection_state ≡ degraded) ↔ (b ≡ false)
  unfolding note_responses
  note_responses-degraded clock true a h = (λ e. cc, λ e. cc)
  note_responses-degraded clock false a h = (λ e. refl, λ e. refl)

  begin_poll-completed :
      (clock : PollClock) (os : List CommandOutcome) (a : AmpState (fl.Float))
      → (begin_poll fl clock os a).first_poll_completed ≡ a.first_poll_completed
  unfolding begin_poll
  begin_poll-completed clock os a = note_responses-completed clock (any_response os) _

  begin_poll-degraded :
      (clock : PollClock) (os : List CommandOutcome) (a : AmpState (fl.Float))
      → ((begin_poll fl clock os a).connection_state ≡ degraded) ↔ (any_response os ≡ false)
  unfolding begin_poll
  begin_poll-degraded clock os a = note_responses-degraded clock (any_response os) _ refl

  begun-Reads :
      (clock : PollClock) (os : List CommandOutcome) (g : BridgeState fl)
      → Agrees fl g.amp
      → Reads (begin_poll fl clock os g.amp) (record g { amp = begin_poll fl clock os g.amp })
  unfolding begin_poll
  begun-Reads clock os g h = record {
    agrees =
        note_responses-Agrees clock (any_response os) _
          (record { operates = h.operates; stands_by = h.stands_by });
    connection = refl;
    completed = refl;
  }

  read_lines-desired :
      (now : ℕ) (lines : List Text) (g : BridgeState fl)
      → (read_lines fl now lines g).desired ≡ g.desired
  unfolding read_lines read_line
  read_lines-desired now [] g = refl
  read_lines-desired now (line ∷ lines) g = read_lines-desired now lines (read_line fl now line g)

  read_response-desired :
      (now : ℕ) (c : ElecraftCommand) (o : Option Text) (g : BridgeState fl)
      → (read_response fl now c o g).desired ≡ g.desired
  unfolding read_response read_line
  read_response-desired now c none g = refl
  read_response-desired now c (some r) g = refl

  read_outcomes-desired :
      (now : ℕ) (os : List CommandOutcome) (g : BridgeState fl)
      → (read_outcomes fl now os g).desired ≡ g.desired
  unfolding read_outcomes
  read_outcomes-desired now [] g = refl
  read_outcomes-desired now (o ∷ os) g =
      let lines = read_lines fl now o.unsolicited g in
      let response = read_response fl now o.command o.response lines in
      read_outcomes-desired now os response
      ∙ (read_response-desired now o.command o.response lines
          ∙ read_lines-desired now o.unsolicited g)

  finish_poll-Agrees :
      (name : PortName) (labels : List Text) (a : AmpState (fl.Float))
      → Agrees fl a
      → Agrees fl (finish_poll fl name labels a)
  unfolding finish_poll
  finish_poll-Agrees name [] a h = record { operates = h.operates; stands_by = h.stands_by }
  finish_poll-Agrees name (l ∷ ls) a h = record { operates = h.operates; stands_by = h.stands_by }

  finish_poll-connection :
      (name : PortName) (labels : List Text) (a : AmpState (fl.Float))
      → (finish_poll fl name labels a).connection_state ≡ a.connection_state
  unfolding finish_poll
  finish_poll-connection name [] a = refl
  finish_poll-connection name (l ∷ ls) a = refl

  finish_poll-error :
      (name : PortName) (labels : List Text) (a : AmpState (fl.Float))
      → ((finish_poll fl name labels a).first_poll_error ≡ none) ↔ (labels ≡ [])
  unfolding finish_poll
  finish_poll-error name [] a = (λ e. refl, λ e. refl)
  finish_poll-error name (l ∷ ls) a = (λ e. cc, λ e. cc)

  finish_poll-completed :
      (name : PortName) (labels : List Text) (a : AmpState (fl.Float))
      → (labels ≡ [] → (finish_poll fl name labels a).first_poll_completed ≡ true)
        × (labels ≢ []
            → (finish_poll fl name labels a).first_poll_completed ≡ a.first_poll_completed)
  unfolding finish_poll
  finish_poll-completed name [] a = (λ e. refl, λ n. absurd (n refl))
  finish_poll-completed name (l ∷ ls) a = (λ e. absurd (ground arith), λ n. refl)

  -- A pass of queries keeps the operating state in step with the operate flag, and leaves the requests in
  -- the mailbox. The connection counts as degraded exactly if no query was answered. The poll reports no
  -- error exactly if the state, the temperature, the voltage and the fault were all answered, and then the
  -- first poll is complete; otherwise its completion stays as it was.
  pub poll_status_on_port_lem :
      (name : PortName) (clock : PollClock) (port : ElecraftCommand → Window) (g : BridgeState fl)
      → Agrees fl g.amp
      → let r = poll_status_on_port fl name clock port g in
        Agrees fl r.1.amp
        × (r.1.desired ≡ g.desired)
        × ((r.1.amp.connection_state ≡ degraded) ↔ (any_response r.0 ≡ false))
        × ((r.1.amp.first_poll_error ≡ none) ↔ IsComplete port)
        × (IsComplete port → r.1.amp.first_poll_completed ≡ true)
        × (¬ IsComplete port → r.1.amp.first_poll_completed ≡ g.amp.first_poll_completed)
  unfolding poll_status_on_port
  poll_status_on_port_lem name clock port g h =
      let outcomes = ask_all port read_only_poll_commands in
      let begun = record g { amp = begin_poll fl clock outcomes g.amp } in
      let read = read_outcomes fl clock.now outcomes begun in
      let reads =
        read_outcomes-Reads begun.amp clock.now outcomes begun (begun-Reads clock outcomes g h) in
      let left = missing outcomes required in
      let error = finish_poll-error name left read.amp in
      let completed = finish_poll-completed name left read.amp in
      let connection = finish_poll-connection name left read.amp ∙ reads.connection in
      let begins = begin_poll-degraded clock outcomes g.amp in
      (
        finish_poll-Agrees name left read.amp reads.agrees,
        read_outcomes-desired clock.now outcomes begun,
        (λ e. begins.0 (sym connection ∙ e), λ e. connection ∙ begins.1 e),
        (λ e. missing-IsComplete port (error.0 e), λ c. error.1 (missing_none port c)),
        λ c. completed.0 (missing_none port c),
        λ n.
            completed.1 (λ e. n (missing-IsComplete port e))
            ∙ (reads.completed ∙ begin_poll-completed clock outcomes g.amp),
      )
