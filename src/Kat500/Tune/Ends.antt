-- ===== src/Kat500/Tune/Ends.antt =====
-- How the wait for the end of a tune ends.
use elecraft_genius_bridge.Bridge.Float.{Float32}
use elecraft_genius_bridge.Bridge.State.{BridgeState}
use elecraft_genius_bridge.Bridge.Lifecycle.{tune_transition, idle}
use elecraft_genius_bridge.Bridge.Serial.{Window, Outcome, failed, done}
use elecraft_genius_bridge.Kat500.Command.{cmd_tune_poll, cmd_vswr}
use elecraft_genius_bridge.Kat500.Send.{
  send_command, send_command_collect, send_command_collect-Answers, matches_expected_response,
  expected_prefixes,
}
use elecraft_genius_bridge.Kat500.Response.Tuning.{parse_kat500_response-tuning}
use elecraft_genius_bridge.Bridge.Serial.{Outcome-cases}
use elecraft_genius_bridge.Bridge.Serial.Await.{IsFirst-of_Answers}
use elecraft_genius_bridge.Kat500.Tune.{
  TunePort, max_rounds, polled, expire, poll_rounds, parse_if_done, or_unchanged,
  poll_tune_until_idle,
}
use elecraft_genius_bridge.Common.{
  Option, Text, arith, false, some, true, ℕ, ◌*◌, ◌+◌, ◌<◌, ◌≡◌, Bool-cases, inl, inr, leb, none,
  refl, suc, zero, ◌∷◌, ◌≤◌, [], any_prefix, codes, is_whitespace, starts_with, strip_prefix,
  text_eq, trim, trim_end_matches, trim_start_matches, ◌⊎◌,
}

head_of_match :
    (response : Text)
    → matches_expected_response (codes "VSWR;") (expected_prefixes cmd_vswr) response ≡ true
    → (t : Text) × (response ≡ b'V' ∷ t)
unfolding matches_expected_response expected_prefixes any_prefix starts_with strip_prefix text_eq
head_of_match [] h = absurd (ground arith)
head_of_match (c ∷ t) h = (t, ground arith)

-- A response to the last query begins with a V.
vswr_response :
    (window : Window) (response : Text)
    → send_command window cmd_vswr ≡ done response
    → (t : Text) × (response ≡ b'V' ∷ t)
unfolding send_command
vswr_response window response h = elim (Outcome-cases (send_command_collect window cmd_vswr)) [
  | inl (m, e) ↦ absurd (ground arith)
  | inr (r, e) ↦
      let answers = send_command_collect-Answers window cmd_vswr in
      let first = IsFirst-of_Answers (rw e at answers) in
      let whole : r.response ≡ response = ground arith in
      head_of_match response (rw whole at first.response_matches)
]

trim-head : (c : ℕ) (t : Text) → is_whitespace c ≡ false → (u : Text) × (trim (c ∷ t) ≡ c ∷ u)
unfolding trim trim_start_matches trim_end_matches
trim-head c t h = elim (is_empty-cases (trim_end_matches is_whitespace t)) [
  | inl e ↦ ([], ground arith)
  | inr (d, u, e) ↦ (d ∷ u, ground arith)
]
  where
    is_empty-cases : (t : Text) → (t ≡ []) ⊎ ((c : ℕ) × (u : Text) × (t ≡ c ∷ u))
    is_empty-cases [] = inl refl
    is_empty-cases (c ∷ u) = inr (c, u, refl)

module _ (fl : Float32) (debug : Option Text → Text) where
  -- No tune is under way.
  pub record IsIdle (g : BridgeState fl) : Type 0 where
    pub not_tuning : g.tuner.tuning ≡ false
    pub idle_state : g.tune.state ≡ idle

  polled-IsIdle :
      (o : Outcome Text) (now : ℕ) (last : Option Text) (g : BridgeState fl)
      → (polled fl debug o now last g).2 ≡ true
      → IsIdle (polled fl debug o now last g).0
  unfolding polled tune_transition
  polled-IsIdle (failed e) now last g h = absurd (ground arith)
  polled-IsIdle (done response) now last g h = ground arith

  expire-IsIdle :
      (now : ℕ) (last : Option Text) (g : BridgeState fl) → IsIdle (expire fl debug now last g)
  unfolding expire tune_transition
  expire-IsIdle now last g = ground arith

  -- The rounds that are left cover the time that is left.
  poll_rounds-ends :
      (fuel i : ℕ) (port : TunePort) (elapsed : ℕ) (last : Option Text) (g : BridgeState fl)
      → elapsed < 15500
      → 15500 ≤ elapsed + 500 * fuel
      → (g' : BridgeState fl) × (poll_rounds fl debug fuel i port elapsed last g ≡ some g')
        × IsIdle g'
  unfolding poll_rounds
  poll_rounds-ends zero i port elapsed last g h k = absurd (omega arith)
  poll_rounds-ends (suc fuel) i port elapsed last g h k =
      let round = port.rounds i in
      let elapsed' = elapsed + round.takes_ms in
      let now = port.started_ms + elapsed' in
      let after = polled fl debug (send_command round.window cmd_tune_poll) now last g in
      elim (Bool-cases after.2) [
        | inl e ↦ (
          after.0,
          rw e refl,
          polled-IsIdle (send_command round.window cmd_tune_poll) now last g e,
        )
        | inr e ↦ elim (Bool-cases (leb 15000 elapsed')) [
          | inl q ↦ (
            expire fl debug now after.1 after.0,
            rw (e, q) refl,
            expire-IsIdle now after.1 after.0,
          )
          | inr q ↦
              let (g', found, ended) =
                poll_rounds-ends fuel (i + 1) port (elapsed' + 500) after.1 after.0 (ground arith)
                  (ground arith) in
              (g', rw (e, q) found, ended)
        ]
      ]

  -- No line that begins with a V touches the flag.
  parse_if_done-IsIdle :
      (window : Window) (g : BridgeState fl)
      → IsIdle g
      → IsIdle (parse_if_done fl debug (send_command window cmd_vswr) g)
  unfolding parse_if_done
  parse_if_done-IsIdle window g idle_g = elim (Outcome-cases (send_command window cmd_vswr)) [
    | inl (m, e) ↦ rw e idle_g
    | inr (response, e) ↦
        let (t, v) = vswr_response window response e in
        let (u, q) = trim-head b'V' t (unfold is_whitespace in refl) in
        let whole : trim response ≡ b'V' ∷ u = rw v q in
        let flag = parse_kat500_response-tuning fl response g.tuner in
        rw e (record {
          not_tuning = ground (arith, flag, idle_g.not_tuning);
          idle_state = idle_g.idle_state;
        })
  ]

  -- The wait ends within 31 polls, whatever the port gives and however long the polls take, and then no
  -- tune is under way.
  pub poll_tune_until_idle-IsIdle :
      (port : TunePort) (g : BridgeState fl) → IsIdle (poll_tune_until_idle fl debug port g)
  unfolding poll_tune_until_idle or_unchanged
  poll_tune_until_idle-IsIdle port g =
      let (g', found, ended) =
        poll_rounds-ends max_rounds 0 port 0 none g (omega arith) (omega arith) in
      rw found (parse_if_done-IsIdle port.vswr g' ended)
