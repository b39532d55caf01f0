-- ===== src/Kat500/Follow.antt =====
-- `refresh_tuning_state_if_needed` and `process_frequency_follow`: the tuner is kept on the radio's
-- frequency. The shared state is passed along; evidence files are left out. The serial port is an
-- argument: one window for the tune poll, and the port for the exchange.
pub mod Passes
pub mod Once
use elecraft_genius_bridge.Bridge.Float.{Float32}
use elecraft_genius_bridge.Bridge.State.{BridgeState}
use elecraft_genius_bridge.Bridge.Radio.{RadioContext}
use elecraft_genius_bridge.Bridge.Tuner.{TunerState}
use elecraft_genius_bridge.Bridge.Lifecycle.{
  TuneLifecycleStatus, tune_transition, mark_failure, idle, tuning, TuneLifecycleState,
}
use elecraft_genius_bridge.Kat500.Command.{
  cmd_tune_poll, Kat500Settings, command_allowed, cmd_frequency_context, cmd_autotune,
}
use elecraft_genius_bridge.Kat500.Frequency.{frequency_context_wire, frequency_hz_to_khz}
use elecraft_genius_bridge.Kat500.Response.{parse_kat500_response}
use elecraft_genius_bridge.Kat500.Send.{send_command}
use elecraft_genius_bridge.Kat500.Echo.{FrequencyFollowRead, send_frequency_context_confirmed}
use elecraft_genius_bridge.Bridge.Serial.{Window, Outcome, failed, done, Port}
use elecraft_genius_bridge.Common.{
  Bool, Option, Text, codes, false, if◌then◌else◌, is_none, leb, ltb, none, not, saturating_add,
  some, text_eq, true, ℕ, ◌&&◌, ◌++◌, ◌-◌, ◌==◌, ◌||◌,
}

unfoldable pub is_tuning : TuneLifecycleState → Bool
is_tuning tuning = true
is_tuning _ = false

-- `entered_at_ms.and_then(|entered| now.checked_sub(entered)).is_some_and(|age| age > 30_000)`
abbrev pub is_stale : Option ℕ → ℕ → Bool
is_stale none now = false
is_stale (some entered) now = leb entered now && ltb 30000 (now - entered)

abbrev skip : RadioContext → RadioContext
skip c = record c { kat500_follow_skipped_count = saturating_add c.kat500_follow_skipped_count 1 }

-- `last_kat500_follow_wire.as_deref() == Some(wire.as_str())`
abbrev pub same_wire : Option Text → Text → Bool
same_wire none wire = false
same_wire (some w) wire = text_eq w wire

-- Whether a rapid change of frequency is put off.
abbrev pub coalesces : RadioContext → ℕ → Bool
coalesces c khz = elim (c.last_kat500_follow_requested_khz) [
  | none ↦ false
  | some requested ↦ not (requested == khz) && is_none c.last_kat500_follow_confirmation_match
]

module _ (fl : Float32) where
  unfoldable pub refresh_tuning_state_if_needed : Window → ℕ → BridgeState fl → BridgeState fl
  unfolding is_tuning
  refresh_tuning_state_if_needed poll now g =
      if g.tuner.tuning || is_tuning g.tune.state
      then elim (send_command poll cmd_tune_poll) [
        | done response ↦
            let tuner = parse_kat500_response fl response g.tuner in
            record g {
              tuner = tuner;
              tune =
                  if tuner.tuning
                  then g.tune
                  else tune_transition g.tune idle (codes "TP0 cleared stale KAT500 tuning state")
                      now;
            }
        | failed e ↦
            if is_stale g.tune.entered_at_ms now
            then record g {
              tuner = record (g.tuner) { tuning = false };
              tune =
                  tune_transition
                    (mark_failure g.tune
                      (codes "stale KAT500 tuning state expired after TP poll failed: " ++ e) now)
                    idle (codes "stale KAT500 tuning state expired") now;
            }
            else g
      ]
      else g

  -- What the first block of `process_frequency_follow` decides: to return, or to send.
  pub data Decision : Type 0 where
    leave : BridgeState fl → Decision
    send : BridgeState fl → ℕ → Text → Decision

  abbrev skipped : BridgeState fl → Decision
  skipped g = leave (record g { radio_context = skip g.radio_context })

  decide_in_range : Kat500Settings → BridgeState fl → ℕ → Text → Decision
  decide_in_range s g hz wire =
      let c = g.radio_context in
      let khz = frequency_hz_to_khz hz in
      let requested = record c { last_kat500_follow_requested_khz = some khz } in
      if g.tuner.tuning
      then leave (record g { radio_context = skip requested })
      else if same_wire c.last_kat500_follow_wire wire
      then leave g
      else if coalesces c khz
      then leave (record g { radio_context = skip requested })
      else if not (command_allowed s cmd_frequency_context) && not (command_allowed s cmd_autotune)
      then leave (record g {
        radio_context = skip c;
        controls = record (g.controls) {
          last_safety_decision = some (codes "kat500_frequency_follow_blocked_by_control_policy");
        };
      })
      else send (record g { radio_context = requested }) hz wire

  unfoldable pub decide : Kat500Settings → BridgeState fl → Decision
  unfolding decide_in_range
  decide s g = elim (g.radio_context.frequency_hz) [
    | none ↦ skipped g
    | some hz ↦ elim (frequency_context_wire (some hz)) [
      | none ↦ skipped g
      | some wire ↦ decide_in_range s g hz wire
    ]
  ]

  abbrev parse_if_some : Option Text → TunerState (fl.Float) → TunerState (fl.Float)
  parse_if_some none t = t
  parse_if_some (some response) t = parse_kat500_response fl response t

  unfoldable pub finish : BridgeState fl → ℕ → Text → Outcome FrequencyFollowRead → BridgeState fl
  finish g hz wire (failed e) = record g {
    radio_context = skip g.radio_context;
    controls = record (g.controls) {
      last_safety_decision = some (codes "kat500_frequency_follow_failed: " ++ e);
    };
  }
  finish g hz wire (done follow) = record g {
    tuner = parse_if_some follow.band_response (parse_kat500_response fl follow.response g.tuner);
    radio_context =
        let c = g.radio_context in
        record c {
          last_kat500_follow_frequency_hz = some hz;
          last_kat500_follow_wire = some wire;
          last_kat500_follow_requested_khz = some follow.requested_khz;
          last_kat500_follow_confirmed_khz = follow.confirmed_khz;
          last_kat500_follow_confirmation_match = some follow.confirmation_match;
          kat500_follow_stale_response_count =
              saturating_add c.kat500_follow_stale_response_count follow.stale_response_count;
          kat500_follow_retry_count = saturating_add c.kat500_follow_retry_count follow.retry_count;
          kat500_follow_sent_count = saturating_add c.kat500_follow_sent_count 1;
        };
    controls = record (g.controls) {
      last_safety_decision = some (codes "kat500_frequency_follow_applied");
    };
  }

  -- Carries a decision out; with it, the wire that goes to the port.
  pub carry_out : Port → Decision → BridgeState fl × Option Text
  unfolding finish
  carry_out port (leave g) = (g, none)
  carry_out port (send g hz wire) =
      (finish g hz wire (send_frequency_context_confirmed port wire), some wire)

  unfoldable pub process_frequency_follow :
      Kat500Settings → Window → ℕ → Port → BridgeState fl → BridgeState fl × Option Text
  unfolding refresh_tuning_state_if_needed decide carry_out
  process_frequency_follow s poll now port g =
      if not s.follow_flex_frequency
      then (g, none)
      else carry_out port (decide s (refresh_tuning_state_if_needed poll now g))
