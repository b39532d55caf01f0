-- ===== src/Kat500/Direct.antt =====
-- `autotune`, `set_antenna` and `set_bypass`: one control outside the passes, with a port that is opened for
-- it, or with a mock. Opening the port is an argument.
use elecraft_genius_bridge.Bridge.Float.{Float32}
use elecraft_genius_bridge.Bridge.State.{BridgeState}
use elecraft_genius_bridge.Bridge.Serial.{Window, Outcome, failed, done}
use elecraft_genius_bridge.Kat500.Command.{
  Kat500Settings, ElecraftCommand, Blocked, ensure_can_send, cmd_autotune, cmd_bypass_on,
  cmd_bypass_off, antenna_command,
}
use elecraft_genius_bridge.Kat500.Send.{send_command}
use elecraft_genius_bridge.Kat500.Desired.{blocked_message}
use elecraft_genius_bridge.Common.{
  Bool, List, Option, Text, [], false, if◌then◌else◌, none, some, true, ℕ, ◌-◌, ◌∷◌, ◌≡◌, ◌⊎◌,
  Option-cases, inl, inr, refl,
}

abbrev error_of : Outcome Text → Option Text
error_of (failed e) = some e
error_of (done response) = none

-- The error, if any, the state, and the wires written to the port.
abbrev Result : Float32 → Type 0
Result fl = Option Text × BridgeState fl × List Text

module _ (fl : Float32) where
  abbrev on_port : Outcome Window → ElecraftCommand → BridgeState fl → Result fl
  on_port (failed e) command g = (some e, g, [])
  on_port (done port) command g = (error_of (send_command port command), g, command.wire ∷ [])

  -- What the three share: the guard, then the mock or the port.
  unfoldable pub guarded :
      Kat500Settings
      → Bool
      → Outcome Window
      → ElecraftCommand
      → BridgeState fl
      → BridgeState fl
      → Result fl
  guarded s mock opened command mocked g = elim (ensure_can_send s command) [
    | some why ↦ (some (blocked_message why), g, [])
    | none ↦ if mock then (none, mocked, []) else on_port opened command g
  ]

  -- With a mock the tuning flag goes up and down again.
  unfoldable pub autotune : Kat500Settings → Bool → Outcome Window → BridgeState fl → Result fl
  unfolding guarded
  autotune s mock opened g =
      let mocked = record g {
        tuner = record (g.tuner) { tuning = false; swr = fl.decimal 115 2 };
      } in
      guarded s mock opened cmd_autotune mocked g

  unfoldable pub set_antenna :
      Kat500Settings → Bool → Outcome Window → ℕ → BridgeState fl → Result fl
  unfolding guarded
  set_antenna s mock opened antenna g =
      let mocked = record g {
        tuner = record (g.tuner) { selected_antenna = some (antenna - 1) };
      } in
      guarded s mock opened (antenna_command antenna) mocked g

  unfoldable pub set_bypass :
      Kat500Settings → Bool → Outcome Window → Bool → BridgeState fl → Result fl
  unfolding guarded
  set_bypass s mock opened on g =
      let mocked = record g { tuner = record (g.tuner) { bypass = on } } in
      guarded s mock opened (if on then cmd_bypass_on else cmd_bypass_off) mocked g

  let_through :
      (unblocked : Option Blocked) (mock : Bool) (opened : Outcome Window)
      (command : ElecraftCommand) (mocked g : BridgeState fl)
      → let r : Result fl = if mock then (none, mocked, []) else on_port opened command g in
        (r.2 ≡ [])
        ⊎ ((mock ≡ false) × (unblocked ≡ unblocked) × (r.1 ≡ g) × (r.2 ≡ command.wire ∷ []))
  let_through unblocked true opened command mocked g = inl refl
  let_through unblocked false (failed e) command mocked g = inl refl
  let_through unblocked false (done port) command mocked g = inr (refl, refl, refl, refl)

  -- Nothing is written, or there is no mock, the guard lets the command through, its wire alone is
  -- written, and the shared state stays as it is.
  guarded-wires :
      (s : Kat500Settings) (mock : Bool) (opened : Outcome Window) (command : ElecraftCommand)
      (mocked g : BridgeState fl)
      → let r = guarded s mock opened command mocked g in
        (r.2 ≡ [])
        ⊎ ((mock ≡ false)
            × (ensure_can_send s command ≡ none)
            × (r.1 ≡ g)
            × (r.2 ≡ command.wire ∷ []))
  unfolding guarded
  guarded-wires s mock opened command mocked g = elim (Option-cases (ensure_can_send s command)) [
    | inr (why, e) ↦ rw (guarded, e) (inl refl)
    | inl e ↦ rw (guarded, e) (let_through none mock opened command mocked g)
  ]
