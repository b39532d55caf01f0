-- ===== src/Kat500/Desired.antt =====
-- `process_desired_control` and `apply_desired_command`: the driver takes the clients' requests from the
-- mailbox and carries them out or refuses them. Evidence files are left out; `debug` is the format `{:?}` of an optional
-- text. With the state a pass gives the controls that it writes to the port, without the queries.
pub mod Guarded
pub mod Switched
pub mod Taken
use elecraft_genius_bridge.Bridge.Float.{Float32}
use elecraft_genius_bridge.Bridge.State.{BridgeState, decided}
use elecraft_genius_bridge.Bridge.Desired.{DesiredState, ManualTuneRequest}
use elecraft_genius_bridge.Bridge.Band.{as_str}
use elecraft_genius_bridge.Bridge.Lifecycle.{
  tune_transition, mark_success, mark_failure, idle, tuning, cooldown,
}
use elecraft_genius_bridge.Bridge.Serial.{Window, Port, Outcome, failed, done}
use elecraft_genius_bridge.Kat500.Command.{
  Kat500Settings, ElecraftCommand, CommandSafety, read_only, state_change_safe, rf_risk,
  destructive_or_unknown, Blocked, dry_run_blocked, requires_allow_control, requires_allow_rf_risk,
  is_read_only, is_rf_risk, ensure_can_send, command_allowed, cmd_autotune, cmd_bypass_on,
  cmd_bypass_off, antenna_command,
}
use elecraft_genius_bridge.Kat500.Frequency.{frequency_context_wire}
use elecraft_genius_bridge.Kat500.Response.{parse_kat500_response}
use elecraft_genius_bridge.Kat500.Send.{send_command}
use elecraft_genius_bridge.Kat500.Echo.{FrequencyFollowRead, send_frequency_context_confirmed}
use elecraft_genius_bridge.Kat500.Follow.{same_wire}
use elecraft_genius_bridge.Kat500.Tune.{TunePort, poll_tune_until_idle}
use elecraft_genius_bridge.Common.{
  Bool, List, Option, Text, [], codes, false, if◌then◌else◌, leb, ltb, none, not, saturating_add,
  show_nat, show_signed, some, true, ℕ, ◌&&◌, ◌++◌, ◌-◌, ◌is◌, ◌||◌, ◌∷◌,
}

safety_str : CommandSafety → Text
safety_str read_only = codes "ReadOnly"
safety_str state_change_safe = codes "StateChangeSafe"
safety_str rf_risk = codes "RfRisk"
safety_str destructive_or_unknown = codes "DestructiveOrUnknown"

-- The texts of `anyhow::bail!` in `ensure_can_send`.
unfoldable pub blocked_message : Blocked → Text
unfolding safety_str
blocked_message (dry_run_blocked label safety) =
    codes "KAT500 dry-run blocked " ++ (label ++ (codes " (" ++ (safety_str safety ++ codes ")")))
blocked_message (requires_allow_control label) =
    codes "KAT500 safe command " ++ (label ++ codes " requires allow_control")
blocked_message (requires_allow_rf_risk label) =
    codes "KAT500 RF-risk command " ++ (label ++ codes " requires allow_rf_risk")

pub data Decision : Type 0 where
  blocked_by_dry_run blocked_by_rf_risk accepted : Decision

unfoldable pub decision_for : Kat500Settings → ElecraftCommand → Decision
decision_for s command =
    if s.dry_run && not (is_read_only command.safety)
    then blocked_by_dry_run
    else if is_rf_risk command.safety && not s.allow_rf_risk
    then blocked_by_rf_risk
    else accepted

-- `command.label == "autotune"`
abbrev pub is_autotune : ElecraftCommand → Bool
is_autotune command = command.label is "autotune"

decision_text : ElecraftCommand → Decision → Text
decision_text command blocked_by_dry_run =
    if is_autotune command
    then codes
        "Autotune received but blocked because this config is monitor/dry-run. Use config.aethersdr-compatible-operational.yaml for live tune testing."
    else codes "blocked_by_dry_run"
decision_text command blocked_by_rf_risk = codes "blocked_by_rf_risk"
decision_text command accepted = codes "accepted"

-- `last_tune_at` lies within the 1500 ms before `now`.
abbrev pub in_cooldown : Option ℕ → ℕ → Bool
in_cooldown none now = false
in_cooldown (some last) now = leb last now && ltb (now - last) 1500

-- `std::mem::take` and the three `take()`.
abbrev pub taken : DesiredState → DesiredState
taken d = record d {
  tuner_autotune_requested = false;
  tuner_selected_antenna = none;
  tuner_bypass = none;
  tuner_manual_tune = none;
}

-- The port during a pass: the time, the exchange of the frequency, the windows of the commands, and the
-- wait for the end of a tune.
pub record ControlPort : Type 0 where
  pub now_ms : ℕ
  pub frequency : Port
  pub autotune : Window
  pub tune : TunePort
  pub finished_ms : ℕ
  pub antenna : Window
  pub bypass : Window

abbrev pub bool_str : Bool → Text
bool_str true = codes "true"
bool_str false = codes "false"

module _ (fl : Float32) (debug : Option Text → Text) where
  -- The end of a step: the state, the controls written, and the error that ends the pass, if any.
  pub record Ran : Type 0 where
    pub state : BridgeState fl
    pub wires : List Text
    pub error : Option Text

  -- `step?; rest`
  and_then : Ran → (BridgeState fl → Ran) → Ran
  and_then r rest = elim (r.error) [
    | some e ↦ r
    | none ↦ let later = rest r.state in record later { wires = r.wires ++ later.wires }
  ]

  -- The first block of `apply_desired_command`.
  note_decision : ElecraftCommand → Text → Decision → BridgeState fl → BridgeState fl
  unfolding decision_text
  note_decision command action decision g =
      let c = g.controls in
      let noted = record c {
        last_mapped_elecraft_action = some action;
        last_safety_decision = some (decision_text command decision);
      } in
      record g {
        controls = elim decision [
          | blocked_by_dry_run ↦ record noted {
            blocked_by_dry_run_count = saturating_add c.blocked_by_dry_run_count 1;
          }
          | blocked_by_rf_risk ↦ record noted {
            blocked_by_rf_risk_count = saturating_add c.blocked_by_rf_risk_count 1;
          }
          | accepted ↦ noted
        ];
      }

  executed : ElecraftCommand → BridgeState fl → BridgeState fl
  executed command g = record g {
    controls = record (g.controls) {
      last_executed_elecraft_command = some command.wire;
      last_safety_decision = some (codes "executed");
    };
  }

  pub after_command : TunePort → ElecraftCommand → BridgeState fl → Outcome Text → Ran
  unfolding executed
  after_command tune command g (failed e) = record {
    state = g;
    wires = command.wire ∷ [];
    error = some e;
  }
  after_command tune command g (done response) = record {
    state =
        if is_autotune command
        then poll_tune_until_idle fl debug tune (executed command g)
        else executed command g;
    wires = command.wire ∷ [];
    error = none;
  }

  unfoldable pub apply_desired_command :
      Kat500Settings → Window → TunePort → ElecraftCommand → Text → BridgeState fl → Ran
  unfolding note_decision after_command
  apply_desired_command s window tune command action g =
      let noted = note_decision command action (decision_for s command) g in
      elim (ensure_can_send s command) [
        | some why ↦ record { state = noted; wires = []; error = some (blocked_message why) }
        | none ↦ after_command tune command noted (send_command window command)
      ]

  suppress : ℕ → BridgeState fl → BridgeState fl
  suppress now g = record g {
    controls = record (g.controls) {
      duplicate_autotune_suppressed_count =
          saturating_add g.controls.duplicate_autotune_suppressed_count 1;
      last_safety_decision = some (codes "duplicate_autotune_suppressed");
    };
    tune =
        tune_transition g.tune cooldown
          (codes "duplicate autotune suppressed inside cooldown window") now;
  }

  begin_tune : ℕ → BridgeState fl → BridgeState fl
  begin_tune now g = record g {
    radio_context = record (g.radio_context) {
      last_tune_at = some now;
      last_tune_frequency_hz = g.radio_context.frequency_hz;
      last_tune_band = some g.radio_context.band;
    };
    controls = record (g.controls) {
      last_tune_frequency_hz = g.radio_context.frequency_hz;
      last_tune_band = some (codes (as_str g.radio_context.band));
    };
    tune = tune_transition g.tune tuning (codes "KAT500 T; accepted for execution") now;
  }

  note_context : Option ℕ → Text → BridgeState fl → Outcome FrequencyFollowRead → BridgeState fl
  note_context hz wire g (failed e) = decided (codes "kat500_frequency_context_failed: " ++ e) g
  note_context hz wire g (done follow) =
      let parsed = parse_kat500_response fl follow.response g.tuner in
      decided (codes "kat500_frequency_context_applied") (record g {
        tuner = elim (follow.band_response) [
          | none ↦ parsed
          | some response ↦ parse_kat500_response fl response parsed
        ];
        radio_context =
            let c = g.radio_context in
            record c {
              last_kat500_follow_frequency_hz = hz;
              last_kat500_follow_wire = some wire;
              last_kat500_follow_requested_khz = some follow.requested_khz;
              last_kat500_follow_confirmed_khz = follow.confirmed_khz;
              last_kat500_follow_confirmation_match = some follow.confirmation_match;
              kat500_follow_stale_response_count =
                  saturating_add c.kat500_follow_stale_response_count follow.stale_response_count;
              kat500_follow_retry_count =
                  saturating_add c.kat500_follow_retry_count follow.retry_count;
              kat500_follow_sent_count = saturating_add c.kat500_follow_sent_count 1;
            };
      })

  abbrev finished : BridgeState fl → Ran
  finished g = record { state = g; wires = []; error = none }

  -- The frequency goes to the tuner before the tune, unless it is there already or the tune is blocked.
  send_context : Kat500Settings → Port → BridgeState fl → Ran
  unfolding note_context
  send_context s port g =
      let hz = g.radio_context.frequency_hz in
      elim (frequency_context_wire hz) [
        | none ↦ finished g
        | some wire ↦
            if same_wire g.radio_context.last_kat500_follow_wire wire
              || not (command_allowed s cmd_autotune)
            then finished g
            else record {
              state = note_context hz wire g (send_frequency_context_confirmed port wire);
              wires = wire ∷ [];
              error = none;
            }
      ]

  -- What follows the tune: its result is noted, and an error ends the pass.
  note_tune : ℕ → Ran → Ran
  note_tune now r = elim (r.error) [
    | none ↦
        let g = r.state in
        record r {
          state = record g {
            controls = record (g.controls) {
              tune_executed_count = saturating_add g.controls.tune_executed_count 1;
              last_tune_result = some (codes "executed");
            };
            tune =
                tune_transition (mark_success g.tune (codes "KAT500 tune command completed") now)
                  idle (codes "tune lifecycle reset after completion") now;
          };
        }
    | some e ↦
        let g = r.state in
        record r {
          state = record g {
            controls = record (g.controls) {
              tune_failed_count = saturating_add g.controls.tune_failed_count 1;
              last_tune_result = some e;
            };
            tune = mark_failure g.tune (codes "KAT500 tune failed: " ++ e) now;
          };
        }
  ]

  -- The tune outside the cooldown.
  tune_now : Kat500Settings → ControlPort → BridgeState fl → Ran
  unfolding begin_tune send_context note_tune and_then
  tune_now s port g = and_then (send_context s port.frequency (begin_tune port.now_ms g)) λ g'.
      note_tune port.finished_ms (
        apply_desired_command s port.autotune port.tune cmd_autotune
          (codes "TGXL autotune -> KAT500 T;") g')

  switch_antenna : Kat500Settings → Window → TunePort → Option ℕ → BridgeState fl → Ran
  switch_antenna s window tune none g = finished g
  switch_antenna s window tune (some antenna) g =
      let command = antenna_command antenna in
      apply_desired_command s window tune command
        (codes "TGXL activate ant=" ++ (show_nat antenna ++ (codes " -> KAT500 " ++ command.wire)))
        g

  switch_bypass : Kat500Settings → Window → TunePort → Option Bool → BridgeState fl → Ran
  switch_bypass s window tune none g = finished g
  switch_bypass s window tune (some bypass) g =
      let command = if bypass then cmd_bypass_on else cmd_bypass_off in
      apply_desired_command s window tune command
        (codes "TGXL bypass=" ++ (bool_str bypass ++ (codes " -> KAT500 " ++ command.wire))) g

  refuse_manual : Option ManualTuneRequest → BridgeState fl → Ran
  refuse_manual none g = finished g
  refuse_manual (some manual) g = finished (
      decided (codes "blocked_unknown_destructive_manual_tune_mapping") (record g {
        controls = record (g.controls) {
          last_mapped_elecraft_action = some (
              codes "KAT500 manual tune relay="
              ++ (show_nat manual.relay
                  ++ (codes " move=" ++ (show_signed manual.movement ++ codes " unverified"))));
        };
      }))

  -- The requests other than autotune, in the order of the code.
  switches : Kat500Settings → ControlPort → DesiredState → BridgeState fl → Ran
  unfolding and_then switch_antenna switch_bypass refuse_manual
  switches s port d g =
      and_then (switch_antenna s port.antenna port.tune d.tuner_selected_antenna g) λ g'.
        and_then (switch_bypass s port.bypass port.tune d.tuner_bypass g')
          (refuse_manual d.tuner_manual_tune)

  unfoldable pub process_desired_control : Kat500Settings → ControlPort → BridgeState fl → Ran
  unfolding suppress tune_now and_then switches
  process_desired_control s port g =
      let d = g.desired in
      let g' = record g { desired = taken d } in
      if not d.tuner_autotune_requested
      then switches s port d g'
      else if in_cooldown g.radio_context.last_tune_at port.now_ms
      then finished (suppress port.now_ms g')
      else and_then (tune_now s port g') (switches s port d)
