-- ===== src/Kat500/Tune.antt =====
-- `poll_tune_until_idle`: the wait for the end of a tune. A round is one tune poll with the time that it
-- takes; the pause after it is 500 ms. `debug` is the format `{:?}` of an optional text.
pub mod Ends
pub mod Keeps
use elecraft_genius_bridge.Bridge.Float.{Float32}
use elecraft_genius_bridge.Bridge.State.{BridgeState}
use elecraft_genius_bridge.Bridge.Lifecycle.{tune_transition, mark_failure, idle}
use elecraft_genius_bridge.Bridge.Serial.{Window, Outcome, failed, done}
use elecraft_genius_bridge.Kat500.Command.{cmd_tune_poll, cmd_vswr}
use elecraft_genius_bridge.Kat500.Response.{parse_kat500_response}
use elecraft_genius_bridge.Kat500.Send.{send_command}
use elecraft_genius_bridge.Common.{
  Bool, Option, Text, codes, false, if◌then◌else◌, leb, none, some, suc, true, zero, ℕ, ◌++◌, ◌+◌,
}

pub record Round : Type 0 where
  pub window : Window
  pub takes_ms : ℕ

-- The serial port while the bridge waits: the time at the start, the rounds, and the last query.
pub record TunePort : Type 0 where
  pub started_ms : ℕ
  pub rounds : ℕ → Round
  pub vswr : Window

-- Fifteen seconds hold 30 pauses, so the 31st round is the last.
abbrev pub max_rounds : ℕ
max_rounds = 31

module _ (fl : Float32) (debug : Option Text → Text) where
  -- The effect of a poll, the last response, and whether the loop breaks off.
  polled : Outcome Text → ℕ → Option Text → BridgeState fl → BridgeState fl × Option Text × Bool
  polled (failed e) now last g = (g, last, false)
  polled (done response) now last g =
      let tuner = parse_kat500_response fl response g.tuner in
      if tuner.tuning then (record g { tuner = tuner }, some response, false) else (
        record g {
          tuner = tuner;
          tune =
              tune_transition g.tune idle (codes "TP0 cleared KAT500 tune lifecycle after autotune")
                now;
        },
        some response,
        true,
      )

  expire : ℕ → Option Text → BridgeState fl → BridgeState fl
  expire now last g = record g {
    tuner = record (g.tuner) { tuning = false };
    tune =
        tune_transition
          (mark_failure g.tune
            (codes "KAT500 tune state expired after 15s without TP0; last_tp_response="
              ++ debug last)
            now)
          idle (codes "KAT500 tune timeout expired tuning state") now;
  }

  -- The loop from round `i` on, `elapsed` milliseconds after its start; `none` if the fuel runs out.
  pub poll_rounds : ℕ → ℕ → TunePort → ℕ → Option Text → BridgeState fl → Option (BridgeState fl)
  unfolding polled expire
  poll_rounds zero i port elapsed last g = none
  poll_rounds (suc fuel) i port elapsed last g =
      let round = port.rounds i in
      let elapsed' = elapsed + round.takes_ms in
      let now = port.started_ms + elapsed' in
      let (g', last', broke) = polled (send_command round.window cmd_tune_poll) now last g in
      let rest = poll_rounds fuel (i + 1) port (elapsed' + 500) last' g' in
      if broke then some g' else if leb 15000 elapsed' then some (expire now last' g') else rest

  parse_if_done : Outcome Text → BridgeState fl → BridgeState fl
  parse_if_done (failed e) g = g
  parse_if_done (done response) g = record g { tuner = parse_kat500_response fl response g.tuner }

  or_unchanged : BridgeState fl → Option (BridgeState fl) → BridgeState fl
  or_unchanged g none = g
  or_unchanged g (some g') = g'

  unfoldable pub poll_tune_until_idle : TunePort → BridgeState fl → BridgeState fl
  unfolding parse_if_done or_unchanged
  poll_tune_until_idle port g =
      parse_if_done (send_command port.vswr cmd_vswr)
        (or_unchanged g (poll_rounds max_rounds 0 port 0 none g))
