-- ===== src/Tgxl/Control.antt =====
-- The commands of `handle_command` that ask something of the tuner.
use elecraft_genius_bridge.Bridge.Float.{Float32}
use elecraft_genius_bridge.Bridge.State.{BridgeState}
use elecraft_genius_bridge.Bridge.Lifecycle.{tune_transition, tune_requested}
use elecraft_genius_bridge.Protocol.{response_line}
use elecraft_genius_bridge.Emulator.{bool_int, command_bool, trim_start_text}
use elecraft_genius_bridge.Tgxl.Status.{state_push_from_tuner}
use elecraft_genius_bridge.Tgxl.Flexradio.{requested}
use elecraft_genius_bridge.Tgxl.Relay.{relay_request, note_relay, RelayResult, refused, wanted}
use elecraft_genius_bridge.Common.{
  Bool, List, Option, String, Text, [], codes, false, if◌then◌else◌, leb, none, parse_nat,
  saturating_add, show_nat, some, starts_with, true, u8_max, ℕ, ◌&&◌, ◌++◌, ◌is◌, ◌∷◌,
}

pub record CommandOutcome : Type 0 where
  pub response : Text
  pub pushes : List Text
  pub unknown : Bool
  pub unsupported : Bool

abbrev pub with_pushes : Text → List Text → CommandOutcome
with_pushes response pushes = record {
  response = response;
  pushes = pushes;
  unknown = false;
  unsupported = false;
}

abbrev pub ok : Text → CommandOutcome
ok response = with_pushes response []

abbrev pub rejected : Text → CommandOutcome
rejected response = record { response = response; pushes = []; unknown = false; unsupported = true }

-- `parse::<u8>().ok().filter(|n| (1..=most).contains(n))`
unfoldable pub number_after : String → ℕ → Text → Option ℕ
number_after prefix most command =
    elim (parse_nat u8_max (trim_start_text (codes prefix) command)) [
      | none ↦ none
      | some n ↦ if leb 1 n && leb n most then some n else none
    ]

module _ (fl : Float32) (seq : ℕ) (command : Text) (aethersdr_compat : Bool)
    (control_profile : Text) where
  -- The outcome, and the state after the command.
  abbrev pub Handled : Type 0
  Handled = CommandOutcome × BridgeState fl

  pub push : BridgeState fl → List Text
  push state = state_push_from_tuner fl state aethersdr_compat control_profile ∷ []

  unfoldable pub set_operate : Option Bool → BridgeState fl → Handled
  set_operate none state = (rejected (response_line seq 2 (codes "error=invalid_operate")), state)
  set_operate (some operate) state = (
    ok (response_line seq 0 []),
    record state {
      controls =
          requested command (codes "TGXL operate set=" ++ show_nat (bool_int operate))
            (codes "tgxl_operate_state_requested") state.controls;
      tuner = record (state.tuner) { operate = operate };
    },
  )

  unfoldable pub set_bypass : Option Bool → BridgeState fl → Handled
  set_bypass none state = (rejected (response_line seq 2 (codes "error=invalid_bypass")), state)
  set_bypass (some bypass) state = (
    ok (response_line seq 0 []),
    record state {
      controls =
          requested command (if bypass then codes "KAT500 BYP;" else codes "KAT500 BYPN;")
            (codes "desired_bypass_requested") state.controls;
      desired = record (state.desired) { tuner_bypass = some bypass };
    },
  )

  unfoldable pub autotune : ℕ → BridgeState fl → Handled
  unfolding push
  autotune now state =
      let c =
        requested command (codes "KAT500 T;") (codes "desired_autotune_requested") state.controls in
      let state' = record state {
        controls = record c {
          tune_command_seen = true;
          tune_requested_count = saturating_add c.tune_requested_count 1;
        };
        tune =
            tune_transition state.tune tune_requested (codes "TGXL autotune command received") now;
        desired = record (state.desired) { tuner_autotune_requested = true };
      } in
      (with_pushes (response_line seq 0 []) (push state'), state')

  unfoldable pub activate_antenna : Option ℕ → BridgeState fl → Handled
  unfolding push
  activate_antenna none state =
      (rejected (response_line seq 2 (codes "error=invalid_antenna")), state)
  activate_antenna (some ant) state =
      let state' = record state {
        controls =
            requested command (codes "KAT500 AN" ++ (show_nat ant ++ codes ";"))
              (codes "desired_antenna_requested") state.controls;
        desired = record (state.desired) { tuner_selected_antenna = some ant };
      } in
      (with_pushes (response_line seq 0 []) (push state'), state')

  unfoldable pub activate_channel : Option ℕ → BridgeState fl → Handled
  activate_channel none state =
      (rejected (response_line seq 2 (codes "error=invalid_channel")), state)
  activate_channel (some ch) state = (
    ok (response_line seq 0 []),
    record state {
      controls =
          requested command (codes "TGXL active channel set to " ++ show_nat ch)
            (codes "tgxl_active_channel_requested") state.controls;
    },
  )

  unfoldable pub tune_relay : RelayResult → BridgeState fl → Handled
  unfolding push
  tune_relay (refused e) state = (rejected (response_line seq 2 (codes "error=" ++ e)), state)
  tune_relay (wanted manual) state =
      let state' = note_relay fl command manual state in
      (with_pushes (response_line seq 0 []) (push state'), state')

  -- The last arms of the `match`.
  unfoldable pub handle_control : ℕ → BridgeState fl → Handled
  unfolding set_operate set_bypass autotune activate_antenna activate_channel tune_relay
  handle_control now state =
      if starts_with (codes "operate set=") command
      then set_operate (command_bool command (codes "set")) state
      else if starts_with (codes "bypass set=") command
      then set_bypass (command_bool command (codes "set")) state
      else if command is "autotune"
      then autotune now state
      else if starts_with (codes "activate ant=") command
      then activate_antenna (number_after "activate ant=" 3 command) state
      else if starts_with (codes "activate ch=") command
      then activate_channel (number_after "activate ch=" 2 command) state
      else if starts_with (codes "tune relay=") command
      then tune_relay (relay_request command) state
      else (
        record {
          response = response_line seq 1 (codes "error=unknown_command");
          pushes = [];
          unknown = true;
          unsupported = false;
        },
        state,
      )
