-- ===== src/Kpa500/Poll/Missing.antt =====
-- Which of the queries that the first poll needs were answered.
use elecraft_genius_bridge.Bridge.Serial.{Window, done, Outcome, Outcome-cases}
use elecraft_genius_bridge.Bridge.Serial.Await.{SerialRead}
use elecraft_genius_bridge.Kpa500.Command.{
  ElecraftCommand, cmd_operate_status, cmd_temperature, cmd_volts_current, cmd_fault,
}
use elecraft_genius_bridge.Kpa500.Send.{send_command_collect}
use elecraft_genius_bridge.Kpa500.Poll.{
  CommandOutcome, missing, ask_all, read_only_poll_commands, required, responded, has_response,
  outcome_of,
}
use elecraft_genius_bridge.Common.{
  List, Text, [], ◌∷◌, ◌≡◌, false, refl, text_eq, true, arith, inl, inr, Bool, ◌||◌,
}

-- Whether the amplifier answers a query.
abbrev pub IsAnswered : (ElecraftCommand → Window) → ElecraftCommand → Type 0
IsAnswered port c = (read : SerialRead) × (send_command_collect (port c) c ≡ done read)

-- The queries that the first poll has to have answered.
abbrev pub IsComplete : (ElecraftCommand → Window) → Type 0
IsComplete port =
    IsAnswered port cmd_operate_status
    × IsAnswered port cmd_temperature
    × IsAnswered port cmd_volts_current
    × IsAnswered port cmd_fault

abbrev reply : (ElecraftCommand → Window) → ElecraftCommand → Outcome SerialRead
reply port c = send_command_collect (port c) c

pub missing_none :
    (port : ElecraftCommand → Window)
    → IsComplete port
    → missing (ask_all port read_only_poll_commands) required ≡ []
unfolding missing ask_all read_only_poll_commands required responded text_eq
missing_none port ((a, p), (b, q), (c, r), (d, s)) = rw (p, q, r, s) refl

missing_first :
    (outcomes : List CommandOutcome) (label : Text) (labels : List Text)
    → missing outcomes (label ∷ labels) ≡ []
    → (responded outcomes label ≡ true) × (missing outcomes labels ≡ [])
unfolding missing
missing_first outcomes label labels h = ground arith

answered :
    (port : ElecraftCommand → Window) (c : ElecraftCommand)
    → has_response (outcome_of c (reply port c)).response ≡ true
    → IsAnswered port c
answered port c h = elim (Outcome-cases (reply port c)) [ inl (m, e) ↦ ground arith | inr r ↦ r ]

or_false : {b : Bool} → b || false ≡ true → b ≡ true
or_false {b} h = ground arith

pub missing-IsComplete :
    (port : ElecraftCommand → Window)
    → missing (ask_all port read_only_poll_commands) required ≡ []
    → IsComplete port
unfolding missing ask_all read_only_poll_commands required responded text_eq
missing-IsComplete port h =
    let outcomes = ask_all port read_only_poll_commands in
    let (a, more) =
      missing_first outcomes cmd_operate_status.label
        (cmd_temperature.label ∷ cmd_volts_current.label ∷ cmd_fault.label ∷ []) h in
    let (b, others) =
      missing_first outcomes cmd_temperature.label (cmd_volts_current.label ∷ cmd_fault.label ∷ [])
        more in
    let (c, last) = missing_first outcomes cmd_volts_current.label (cmd_fault.label ∷ []) others in
    let (d, end) = missing_first outcomes cmd_fault.label [] last in
    (
      answered port cmd_operate_status (or_false a),
      answered port cmd_temperature (or_false b),
      answered port cmd_volts_current (or_false c),
      answered port cmd_fault (or_false d),
    )
