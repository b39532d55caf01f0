-- ===== src/Kat500/Tune/Keeps.antt =====
-- The mailbox and the time of the last tune over the wait for the end of a tune.
use elecraft_genius_bridge.Bridge.Float.{Float32}
use elecraft_genius_bridge.Bridge.State.{BridgeState}
use elecraft_genius_bridge.Bridge.Serial.{Outcome, failed, done}
use elecraft_genius_bridge.Kat500.Command.{cmd_tune_poll, cmd_vswr}
use elecraft_genius_bridge.Kat500.Send.{send_command}
use elecraft_genius_bridge.Kat500.Tune.{
  TunePort, max_rounds, polled, expire, poll_rounds, parse_if_done, or_unchanged,
  poll_tune_until_idle,
}
use elecraft_genius_bridge.Common.{
  Option, Text, arith, if_cases, leb, none, refl, some, suc, zero, ℕ, ◌+◌, ◌∙◌, ◌≡◌,
}

-- Neither the mailbox nor the time of the last tune changes.
pub record Keeps {fl : Float32} (g g' : BridgeState fl) : Type 0 where
  pub desired : g'.desired ≡ g.desired
  pub last_tune_at : g'.radio_context.last_tune_at ≡ g.radio_context.last_tune_at

abbrev pub kept :
    {fl : Float32} {g g' : BridgeState fl}
    → (g'.desired ≡ g.desired)
    → (g'.radio_context.last_tune_at ≡ g.radio_context.last_tune_at)
    → Keeps g g'
kept d t = record { desired = d; last_tune_at = t }

pub Keeps-trans : {fl : Float32} {a b c : BridgeState fl} → Keeps a b → Keeps b c → Keeps a c
Keeps-trans h k = kept (k.desired ∙ h.desired) (k.last_tune_at ∙ h.last_tune_at)

module _ (fl : Float32) (debug : Option Text → Text) where
  abbrev KeptBy : BridgeState fl → Option (BridgeState fl) → Type 0
  KeptBy g none = Unit
  KeptBy g (some g') = Keeps g g'

  KeptBy-trans :
      (a b : BridgeState fl) (o : Option (BridgeState fl)) → Keeps a b → KeptBy b o → KeptBy a o
  KeptBy-trans a b none h k = tt
  KeptBy-trans a b (some c) h k = Keeps-trans h k

  polled-Keeps :
      (o : Outcome Text) (now : ℕ) (last : Option Text) (g : BridgeState fl)
      → Keeps g (polled fl debug o now last g).0
  unfolding polled
  polled-Keeps (failed e) now last g = ground arith
  polled-Keeps (done response) now last g = ground arith

  poll_rounds-Keeps :
      (fuel i : ℕ) (port : TunePort) (elapsed : ℕ) (last : Option Text) (g : BridgeState fl)
      → KeptBy g (poll_rounds fl debug fuel i port elapsed last g)
  unfolding poll_rounds expire
  poll_rounds-Keeps zero i port elapsed last g = tt
  poll_rounds-Keeps (suc fuel) i port elapsed last g =
      let round = port.rounds i in
      let elapsed' = elapsed + round.takes_ms in
      let now = port.started_ms + elapsed' in
      let o = send_command round.window cmd_tune_poll in
      let (g', last', broke) = polled fl debug o now last g in
      let k = polled-Keeps o now last g in
      let later = poll_rounds-Keeps fuel (i + 1) port (elapsed' + 500) last' g' in
      if_cases (KeptBy g) broke (some g') _ k (
        if_cases (KeptBy g) (leb 15000 elapsed') (some (expire fl debug now last' g')) _
          (kept k.desired k.last_tune_at) (KeptBy-trans g g' _ k later))

  or_unchanged-Keeps :
      (g : BridgeState fl) (o : Option (BridgeState fl))
      → KeptBy g o
      → Keeps g (or_unchanged fl debug g o)
  unfolding or_unchanged
  or_unchanged-Keeps g none h = kept refl refl
  or_unchanged-Keeps g (some g') h = h

  parse_if_done-Keeps :
      (o : Outcome Text) (g : BridgeState fl) → Keeps g (parse_if_done fl debug o g)
  unfolding parse_if_done
  parse_if_done-Keeps (failed e) g = kept refl refl
  parse_if_done-Keeps (done r) g = kept refl refl

  pub poll_tune_until_idle-Keeps :
      (port : TunePort) (g : BridgeState fl) → Keeps g (poll_tune_until_idle fl debug port g)
  unfolding poll_tune_until_idle
  poll_tune_until_idle-Keeps port g =
      let polled_out = poll_rounds fl debug max_rounds 0 port 0 none g in
      Keeps-trans (or_unchanged-Keeps g polled_out (poll_rounds-Keeps max_rounds 0 port 0 none g))
        (parse_if_done-Keeps (send_command port.vswr cmd_vswr) (or_unchanged fl debug g polled_out))
