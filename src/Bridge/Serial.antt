-- ===== src/Bridge/Serial.antt =====
-- A serial port as the two drivers see it while they wait for an echo or a response. The port is an argument of the
-- model: what it does is given beforehand.
pub mod Await
use elecraft_genius_bridge.Common.{Bool, List, Text, inl, inr, refl, ℕ, ◌≡◌, ◌⊎◌}

-- `anyhow::Result`, with the message that it shows.
pub data Outcome {ℓ} (A : Type ℓ) : Type ℓ where
  failed : Text → Outcome A
  done : A → Outcome A

pub data Sending : Type 0 where
  sent write_failed flush_failed : Sending

-- One attempt: whether the command is written and flushed, the lines that arrive before the deadline,
-- and whether reading then fails or, if not, times out.
pub record Window : Type 0 where
  pub sending : Sending
  pub lines : List Text
  pub read_fails : Bool

-- Two attempts, with the number of lines that the waits for quiet before and after them drain.
pub record Port : Type 0 where
  pub drained_before : ℕ
  pub first : Window
  pub second : Window
  pub drained_after : ℕ

-- The rest of an attempt, or the message of the write or of the flush.
abbrev pub if_sent {ℓ} : {A : Type ℓ} → Sending → Text → Text → Outcome A → Outcome A
if_sent sent on_write on_flush rest = rest
if_sent write_failed on_write on_flush rest = failed on_write
if_sent flush_failed on_write on_flush rest = failed on_flush

pub Outcome-cases {ℓ} :
    {A : Type ℓ} (o : Outcome A) → ((m : Text) × (o ≡ failed m)) ⊎ ((a : A) × (o ≡ done a))
Outcome-cases (failed m) = inl (m, refl)
Outcome-cases (done a) = inr (a, refl)
