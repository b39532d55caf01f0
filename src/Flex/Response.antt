-- ===== src/Flex/Response.antt =====
-- `parse_response`: the radio's answers to the bridge's commands.
use elecraft_genius_bridge.Common.{
  ℕ, ◌≤◌, ◌≡◌, [], ◌∷◌, ◌++◌, Option, none, some, Text, codes, strip_prefix, split_once, show_nat,
  parse_nat, u32_max, split_once-append, digits-Lacks, show_nat_digits, parse_nat-show_nat,
}
use elecraft_genius_bridge.Protocol.{response_line}

infixl 5 ◌>>=◌
abbrev ◌>>=◌ {ℓ κ} : {A : Type ℓ} {B : Type κ} → Option A → (A → Option B) → Option B
none >>= f = none
some a >>= f = f a

-- The second and third part of `splitn(3, '|')`.
code_and_body : Text → Option (Text × Text) → Text × Text
code_and_body rest none = (rest, [])
code_and_body rest (some p) = p

unfoldable pub parse_response : Text → Option (ℕ × Text × Text)
unfolding code_and_body
parse_response line = do
  rest ← strip_prefix (codes "R") line
  parts ← split_once b'|' rest
  seq ← parse_nat u32_max parts.0
  let (code, body) = code_and_body parts.1 (split_once b'|' parts.1)
  some (seq, code, body)

-- A response that the emulators write is read back by the Flex client: its number, its code and its
-- body with the line end, whatever the body holds.
pub parse_response-response_line :
    (seq code : ℕ) (body : Text)
    → seq ≤ u32_max
    → parse_response (response_line seq code body) ≡ some (seq, show_nat code, body ++ codes "\n")
unfolding parse_response response_line strip_prefix
parse_response-response_line seq code body h =
    let tail = body ++ codes "\n" in
    rw (
      split_once-append b'|' (show_nat seq) (show_nat code ++ b'|' ∷ tail)
          (digits-Lacks (show_nat seq) (show_nat_digits seq)),
      parse_nat-show_nat u32_max seq h,
      split_once-append b'|' (show_nat code) tail
          (digits-Lacks (show_nat code) (show_nat_digits code)),
    )
