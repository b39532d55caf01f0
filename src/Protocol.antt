-- ===== src/Protocol.antt =====
-- crates/bridge-core/src/protocol.rs: the client's command lines and the bridge's response lines.
pub mod Parsing
use elecraft_genius_bridge.Common.{
  ℕ, List, [], ◌∷◌, ◌++◌, Option, none, some, Text, codes, is_empty, trim, strip_prefix, split_once,
  show_nat, parse_nat, u32_max, if◌then◌else◌,
}

pub record ClientCommand : Type 0 where
  pub seq : ℕ
  pub command : Text

pub data ProtocolError : Type 0 where
  empty not_client_command missing_separator invalid_sequence missing_body : ProtocolError

pub data Result {ℓ} (A : Type ℓ) : Type ℓ where
  ok : A → Result A
  err : ProtocolError → Result A

infixl 5 ◌>>=◌
abbrev pub ◌>>=◌ {ℓ κ} : {A : Type ℓ} {B : Type κ} → Result A → (A → Result B) → Result B
ok a >>= f = f a
err e >>= f = err e

abbrev pub ok_or {ℓ} : {A : Type ℓ} → Option A → ProtocolError → Result A
ok_or none e = err e
ok_or (some a) e = ok a

check_body : ℕ → Text → Result ClientCommand
check_body seq command =
    if is_empty command then err missing_body else ok (record { seq = seq; command = command })

parse_trimmed : Text → Result ClientCommand
unfolding check_body
parse_trimmed trimmed = do
  rest ← ok_or (strip_prefix (codes "C") trimmed) not_client_command
  parts ← ok_or (split_once b'|' rest) missing_separator
  seq ← ok_or (parse_nat u32_max parts.0) invalid_sequence
  check_body seq (trim parts.1)

unfoldable pub parse_client_command : Text → Result ClientCommand
unfolding parse_trimmed
parse_client_command line = if is_empty (trim line) then err empty else parse_trimmed (trim line)

unfoldable pub response_line : ℕ → ℕ → Text → Text
response_line seq code body =
    b'R' ∷ (show_nat seq ++ (b'|' ∷ (show_nat code ++ (b'|' ∷ (body ++ 10 ∷ [])))))
