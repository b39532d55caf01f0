-- ===== src/Bridge/Serial/Await.antt =====
-- The loop in which both drivers await the response to a command: the first line that matches ends it,
-- and the lines before it are collected.
use elecraft_genius_bridge.Bridge.Serial.{
  Outcome, failed, done, Sending, sent, write_failed, flush_failed, Window, if_sent,
}
use elecraft_genius_bridge.Common.{
  All, Bool, Bool-cases, List, Option, Option-cases, Text, [], ap, arith, codes, false,
  if◌then◌else◌, inl, inr, none, refl, some, subst, sym, true, ◌++◌, ◌∷◌, ◌≡◌, ◌≢◌, ◌⊎◌,
}

pub record SerialRead : Type 0 where
  pub response : Text
  pub unsolicited : List Text

unfoldable pub collect : (Text → Bool) → List Text → Option SerialRead
collect matches [] = none
collect matches (line ∷ rest) =
    let later = collect matches rest in
    if matches line then some (record { response = line; unsolicited = [] }) else elim later [
      | none ↦ none
      | some r ↦ some (record r { unsolicited = line ∷ r.unsolicited })
    ]

-- A loop that no line ends is ended by an error of reading or by the deadline.
abbrev pub ended : Bool → Option SerialRead → Outcome SerialRead
ended read_fails (some r) = done r
ended true none = failed (codes "failed reading serial response")
ended false none = failed (codes "serial response timed out")

-- The first match, after lines that all fail to match.
pub record IsFirst (matches : Text → Bool) (lines : List Text) (r : SerialRead) : Type 0 where
  pub response_matches : matches r.response ≡ true
  pub others_do_not : All (λ line. matches line ≡ false) r.unsolicited
  pub in_order : (rest : List Text) × (lines ≡ r.unsolicited ++ r.response ∷ rest)

pub collect-IsFirst :
    (matches : Text → Bool) (lines : List Text) (r : SerialRead)
    → collect matches lines ≡ some r
    → IsFirst matches lines r
unfolding collect
collect-IsFirst matches [] r h = absurd (ground arith)
collect-IsFirst matches (line ∷ rest) r h = elim (Bool-cases (matches line)) [
  | inl e ↦ record {
    response_matches = ground arith;
    others_do_not = ground arith;
    in_order = (rest, ground arith);
  }
  | inr e ↦ elim (Option-cases (collect matches rest)) [
    | inl n ↦ absurd (ground arith)
    | inr (q, n) ↦
        let first = collect-IsFirst matches rest q n in
        let whole : r ≡ record q { unsolicited = line ∷ q.unsolicited } = ground arith in
        rw whole (record {
          response_matches = first.response_matches;
          others_do_not = (e, first.others_do_not);
          in_order = (first.in_order.0, ap (λ t. line ∷ t) first.in_order.1);
        })
  ]
]

pub collect-none :
    (matches : Text → Bool) (lines : List Text)
    → collect matches lines ≡ none
    → All (λ line. matches line ≡ false) lines
unfolding collect
collect-none matches [] h = tt
collect-none matches (line ∷ rest) h = elim (Bool-cases (matches line)) [
  | inl e ↦ absurd (ground arith)
  | inr e ↦ elim (Option-cases (collect matches rest)) [
    | inl n ↦ (e, collect-none matches rest n)
    | inr (q, n) ↦ absurd (ground arith)
  ]
]

-- How an awaited response comes out: either the first matching line, or an error while no line matched or
-- the command was not sent.
pub data Answers (matches : Text → Bool) (port : Window) : Outcome SerialRead → Type 0 where
  unsent : (m : Text) → port.sending ≢ sent → Answers matches port (failed m)
  unanswered :
      (m : Text)
      → port.sending ≡ sent
      → All (λ line. matches line ≡ false) port.lines
      → Answers matches port (failed m)
  answered :
      (r : SerialRead)
      → port.sending ≡ sent
      → IsFirst matches port.lines r
      → Answers matches port (done r)

pub IsFirst-of_Answers :
    {matches : Text → Bool} {port : Window} {r : SerialRead}
    → Answers matches port (done r)
    → IsFirst matches port.lines r
IsFirst-of_Answers (answered r s first) = first

ended-Answers :
    (matches : Text → Bool) (port : Window) (read_fails : Bool)
    → port.sending ≡ sent
    → Answers matches port (ended read_fails (collect matches port.lines))
ended-Answers matches port read_fails s = elim (Option-cases (collect matches port.lines)) [
  | inl n ↦ elim (Bool-cases read_fails) [
    | inl e ↦ rw (n, e) (unanswered _ s (collect-none matches port.lines n))
    | inr e ↦ rw (n, e) (unanswered _ s (collect-none matches port.lines n))
  ]
  | inr (r, n) ↦ rw n (answered r s (collect-IsFirst matches port.lines r n))
]

Sending-cases : (s : Sending) → (s ≡ sent) ⊎ (s ≡ write_failed) ⊎ (s ≡ flush_failed)
Sending-cases sent = inl refl
Sending-cases write_failed = inr (inl refl)
Sending-cases flush_failed = inr (inr refl)

pub if_sent-Answers :
    (matches : Text → Bool) (port : Window) (on_write on_flush : Text)
    → Answers matches port (
        if_sent port.sending on_write on_flush (ended port.read_fails (collect matches port.lines)))
if_sent-Answers matches port on_write on_flush = elim (Sending-cases port.sending) [
  | inl e ↦
      let out = ended-Answers matches port port.read_fails e in
      subst
        (λ s.
          Answers matches port
            (if_sent s on_write on_flush (ended port.read_fails (collect matches port.lines))))
        (sym e) out
  | inr (inl e) ↦
      subst
        (λ s.
          Answers matches port
            (if_sent s on_write on_flush (ended port.read_fails (collect matches port.lines))))
        (sym e) (unsent on_write (λ q. cc))
  | inr (inr e) ↦
      subst
        (λ s.
          Answers matches port
            (if_sent s on_write on_flush (ended port.read_fails (collect matches port.lines))))
        (sym e) (unsent on_flush (λ q. cc))
]
