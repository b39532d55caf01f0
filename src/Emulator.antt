-- ===== src/Emulator.antt =====
-- What the two emulators share: numbers as they show them, and the words of a command.
use elecraft_genius_bridge.Bridge.Float.{Float32}
use elecraft_genius_bridge.Bridge.Tuner.{
  ConnectionState, disconnected, connecting, connected, degraded, error,
}
use elecraft_genius_bridge.Common.{
  Bool, List, Option, Text, [], codes, false, if◌then◌else◌, length, none, not, parse_nat, some,
  split_whitespace, strip_prefix, suc, true, u8_max, zero, ℕ, ◌&&◌, ◌++◌, ◌is◌, ◌||◌, ◌∷◌, String,
}

unfoldable pub bool_int : Bool → ℕ
bool_int true = 1
bool_int false = 0

-- `matches!(connection_state, Disconnected | Degraded | Error)`
abbrev pub is_degraded : ConnectionState → Bool
is_degraded disconnected = true
is_degraded connecting = false
is_degraded connected = false
is_degraded degraded = true
is_degraded error = true

-- `as_deref().unwrap_or(..)`
abbrev pub text_or : Option Text → Text → Text
text_or none t = t
text_or (some u) t = u

abbrev pub nat_or : Option ℕ → ℕ → ℕ
nat_or none n = n
nat_or (some m) n = m

abbrev pub ok_u8 : Option Text → Option ℕ
ok_u8 none = none
ok_u8 (some t) = parse_nat u8_max t

-- A `format!`: the pieces of its text, each with the value that follows it.
abbrev pub format : List (String × Text) → Text
format [] = []
format ((piece, value) ∷ rest) = codes piece ++ (value ++ format rest)

find_token : Text → List Text → Option Text
find_token key [] = none
find_token key (part ∷ rest) = elim (strip_prefix (key ++ b'=' ∷ []) part) [
  | none ↦ find_token key rest
  | some value ↦ some value
]

unfoldable pub command_token : Text → Text → Option Text
unfolding find_token
command_token command key = find_token key (split_whitespace command)

unfoldable pub command_channel : Text → Option ℕ
command_channel command = ok_u8 (command_token command (codes "ch"))

unfoldable pub bool_word : Text → Option Bool
bool_word value =
    if value is "1" || value is "true" || value is "True" || value is "TRUE"
    then some true
    else if value is "0" || value is "false" || value is "False" || value is "FALSE"
    then some false
    else none

unfoldable pub command_bool : Text → Text → Option Bool
unfolding bool_word
command_bool command key = elim (command_token command key) [
  | none ↦ none
  | some value ↦ bool_word value
]

-- `str::trim_start_matches` with a text, which goes away as often as it stands there. The length of the
-- text is fuel.
strip_all : ℕ → Text → Text → Text
strip_all zero p t = t
strip_all (suc fuel) p t = elim (strip_prefix p t) [ none ↦ t | some u ↦ strip_all fuel p u ]

unfoldable pub trim_start_text : Text → Text → Text
unfolding strip_all
trim_start_text p t = strip_all (length t) p t

module _ (fl : Float32) where
  unfoldable pub watts_to_dbm : fl.Float → fl.Float
  watts_to_dbm watts =
      if fl.le watts (fl.decimal 0 1)
      then fl.neg (fl.decimal 120 0)
      else fl.mul (fl.decimal 10 0) (fl.log10 (fl.mul watts (fl.decimal 1000 0)))

  -- `a > b`
  abbrev gt : fl.Float → fl.Float → Bool
  gt a b = fl.le b a && not (fl.eq a b)

  abbrev clamp : fl.Float → fl.Float → fl.Float → fl.Float
  clamp x lo hi = if gt lo x then lo else if gt x hi then hi else x

  unfoldable pub protocol_swr_value : fl.Float → fl.Float
  protocol_swr_value swr =
      let one = fl.decimal 1 0 in
      if fl.is_finite swr && gt swr one
      then fl.mul (fl.decimal 20 0) (
          fl.log10
            (clamp (fl.div (fl.sub swr one) (fl.add swr one)) (fl.decimal 1 3) (fl.decimal 999 3)))
      else fl.neg (fl.decimal 30 0)
