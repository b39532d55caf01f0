-- ===== src/Protocol/Parsing.antt =====
-- What `parse_client_command` accepts, and which error it gives otherwise.
use elecraft_genius_bridge.Common.{
  ℕ, ◌≤◌, ◌≡◌, refl, ◌≢◌, false, [], ◌∷◌, ◌++◌, Text, is_empty, trim, strip_prefix, show_nat,
  parse_nat-show_nat, u32_max, AllIn, is_whitespace, trim_end_matches, trim_start_matches,
  trim_start_matches-append, trim_end_matches_framed, trim_end-ne-nil, Lacks, show_nat_digits,
  trim-trim_end, split_once-append, inl, digits-Lacks, true, inr, split_once, Bool-cases, parse_nat,
  ◌⊎◌, ◌==◌, ==_iff, Option-cases, Lacks-of_split_once, none, ap, eq_of_split_once, some, ◌∙◌,
  arith,
}
use elecraft_genius_bridge.Protocol.{
  ok, parse_client_command, check_body, parse_trimmed, Result, ok_or, ClientCommand, err,
  invalid_sequence, missing_separator, ◌>>=◌, empty, not_client_command, missing_body,
}

-- The line that a client writes for a command. A line end is part of `body`.
abbrev pub command_text : ℕ → Text → Text
command_text seq body = b'C' ∷ (show_nat seq ++ b'|' ∷ body)

trim-command_text :
    (pad : Text) (seq : ℕ) (body : Text)
    → AllIn is_whitespace pad
    → trim body ≢ []
    → trim (pad ++ command_text seq body) ≡ command_text seq (trim_end_matches is_whitespace body)
unfolding trim trim_start_matches is_whitespace
trim-command_text pad seq body h k =
    rw (trim_start_matches-append is_whitespace pad (command_text seq body) h)
      (trim_end_matches_framed is_whitespace b'C' (show_nat seq) b'|' body (trim_end-ne-nil body k))

is_empty-ne : (t : Text) → t ≢ [] → is_empty t ≡ false
is_empty-ne [] h = absurd (h refl)
is_empty-ne (c ∷ t) h = refl

-- A command that a client numbers and writes out is read back, whatever white space stands before
-- it and around its body, provided that the number fits 32 bits and the body is not blank.
pub parse_client_command-command_text :
    (pad : Text) (seq : ℕ) (body : Text)
    → AllIn is_whitespace pad
    → seq ≤ u32_max
    → trim body ≢ []
    → parse_client_command (pad ++ command_text seq body)
      ≡ ok (record { seq = seq; command = trim body })
unfolding parse_client_command strip_prefix
parse_client_command-command_text pad seq body h k n =
    let kept = trim_end_matches is_whitespace body in
    let digits = digits-Lacks (show_nat seq) (show_nat_digits seq) in
    rw (trim-command_text pad seq body h n) (
      rw (split_once-append b'|' (show_nat seq) kept digits, parse_nat-show_nat u32_max seq k)
        (rw (trim-trim_end body, is_empty-ne (trim body) n)))

-- Which result a line has, said without the parser's steps.
pub data Reads (line : Text) : Result ClientCommand → Type 0 where
  blank : trim line ≡ [] → Reads line (err empty)
  unmarked :
      trim line ≢ [] → ((t : Text) → trim line ≢ b'C' ∷ t) → Reads line (err not_client_command)
  unseparated :
      (t : Text) → trim line ≡ b'C' ∷ t → Lacks b'|' t → Reads line (err missing_separator)
  misnumbered :
      (number rest : Text)
      → trim line ≡ b'C' ∷ (number ++ b'|' ∷ rest)
      → Lacks b'|' number
      → parse_nat u32_max number ≡ none
      → Reads line (err invalid_sequence)
  bodiless :
      (number rest : Text) (seq : ℕ)
      → trim line ≡ b'C' ∷ (number ++ b'|' ∷ rest)
      → Lacks b'|' number
      → parse_nat u32_max number ≡ some seq
      → trim rest ≡ []
      → Reads line (err missing_body)
  accepted :
      (number rest : Text) (seq : ℕ)
      → trim line ≡ b'C' ∷ (number ++ b'|' ∷ rest)
      → Lacks b'|' number
      → parse_nat u32_max number ≡ some seq
      → trim rest ≢ []
      → Reads line (ok (record { seq = seq; command = trim rest }))

is_empty-cases : (t : Text) → ((t ≡ []) × (is_empty t ≡ true)) ⊎ ((t ≢ []) × (is_empty t ≡ false))
is_empty-cases [] = inl (refl, refl)
is_empty-cases (c ∷ t) = inr (λ e. cc, refl)

numbered-Reads :
    (line number rest : Text)
    → trim line ≡ b'C' ∷ (number ++ b'|' ∷ rest)
    → Lacks b'|' number
    → Reads line
        (ok_or (parse_nat u32_max number) invalid_sequence >>= λ seq. check_body seq (trim rest))
unfolding check_body
numbered-Reads line number rest e l = elim (Option-cases (parse_nat u32_max number)) [
  | inl n ↦ rw n (misnumbered number rest e l n)
  | inr (seq, n) ↦ rw n (elim (is_empty-cases (trim rest)) [
    | inl (b, t) ↦ rw t (bodiless number rest seq e l n b)
    | inr (b, t) ↦ rw t (accepted number rest seq e l n b)
  ])
]

separated-Reads :
    (line rest : Text)
    → trim line ≡ b'C' ∷ rest
    → Reads line (
        ok_or (split_once b'|' rest) missing_separator >>= λ parts.
        ok_or (parse_nat u32_max parts.0) invalid_sequence >>= λ seq. check_body seq (trim parts.1))
separated-Reads line rest e = elim (Option-cases (split_once b'|' rest)) [
  | inl n ↦ rw n (unseparated rest e (Lacks-of_split_once b'|' rest n))
  | inr (p, n) ↦
      let (shape, lacks) = eq_of_split_once b'|' rest p.0 p.1 n in
      rw n (numbered-Reads line p.0 p.1 (e ∙ ap (λ t. b'C' ∷ t) shape) lacks)
]

trimmed-Reads : (line t : Text) → trim line ≡ t → t ≢ [] → Reads line (parse_trimmed t)
unfolding parse_trimmed strip_prefix
trimmed-Reads line [] e n = absurd (n refl)
trimmed-Reads line (c ∷ t) e n = elim (Bool-cases (c == b'C')) [
  | inl h ↦ rw h (separated-Reads line t (rw ((==_iff c b'C').0 h) at e))
  | inr h ↦ rw h (unmarked (rw e n) (λ u k. ground arith))
]

-- Every line has exactly the result that its shape calls for: each error, and the command read.
pub parse_client_command-Reads : (line : Text) → Reads line (parse_client_command line)
unfolding parse_client_command
parse_client_command-Reads line = elim (is_empty-cases (trim line)) [
  | inl (e, t) ↦ rw t (blank e)
  | inr (n, t) ↦ rw t (trimmed-Reads line (trim line) refl n)
]
