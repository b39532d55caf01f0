-- ===== src/Tgxl/Relay.antt =====
-- `apply_relay_command`: a client asks to move one relay of the tuner by a step.
use elecraft_genius_bridge.Bridge.Float.{Float32}
use elecraft_genius_bridge.Bridge.State.{BridgeState}
use elecraft_genius_bridge.Bridge.Desired.{ManualTuneRequest}
use elecraft_genius_bridge.Tgxl.Flexradio.{requested}
use elecraft_genius_bridge.Common.{
  Bool, List, Option, Text, [], codes, if◌then◌else◌, leb, none, parse_nat, parse_signed, show_nat,
  show_signed, some, split_whitespace, strip_prefix, true, u8_max, ℕ, ◌++◌, ◌-◌, ◌==◌, ◌∷◌,
}

-- The loop over the words: the last `relay=` and the last `move=` count.
unfoldable pub read_parts : List Text → Option ℕ → Option (Bool × ℕ) → Option ℕ × Option (Bool × ℕ)
read_parts [] relay movement = (relay, movement)
read_parts (part ∷ rest) relay movement = elim (strip_prefix (codes "relay=") part) [
  | some value ↦ read_parts rest (parse_nat u8_max value) movement
  | none ↦ elim (strip_prefix (codes "move=") part) [
    | some value ↦ read_parts rest relay (parse_signed 2147483647 value)
    | none ↦ read_parts rest relay movement
  ]
]

-- The relay as the bridge counts it: a client counts from one, an old one from zero.
abbrev pub internal_relay : ℕ → Option ℕ
internal_relay relay = if relay == 0 then some 0 else if leb relay 3 then some (relay - 1) else none

pub data RelayResult : Type 0 where
  refused : Text → RelayResult
  wanted : ManualTuneRequest → RelayResult

unfoldable pub read_movement : ℕ → Option (Bool × ℕ) → RelayResult
read_movement relay none = refused (codes "missing_move")
read_movement relay (some movement) = elim (internal_relay relay) [
  | none ↦ refused (codes "invalid_relay")
  | some internal ↦
      if movement.1 == 1
      then wanted (record { relay = internal; movement = movement })
      else refused (codes "invalid_move")
]

-- The command as far as it is read before the state changes.
unfoldable pub relay_request : Text → RelayResult
unfolding read_parts read_movement
relay_request command =
    let (relay, movement) = read_parts (split_whitespace command) none none in
    elim relay [ none ↦ refused (codes "missing_relay") | some n ↦ read_movement n movement ]

module _ (fl : Float32) where
  unfoldable pub note_relay : Text → ManualTuneRequest → BridgeState fl → BridgeState fl
  note_relay command manual state = record state {
    controls =
        record (requested command
          (codes "KAT500 manual relay="
            ++ (show_nat manual.relay
                ++ (codes " move=" ++ (show_signed manual.movement ++ codes " (unverified)"))))
          (codes "desired_manual_tune_requested") state.controls) { tune_command_seen = true };
    desired = record (state.desired) { tuner_manual_tune = some manual };
  }
