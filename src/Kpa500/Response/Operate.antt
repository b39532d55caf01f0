-- ===== src/Kpa500/Response/Operate.antt =====
-- Which lines set the operate flag.
use elecraft_genius_bridge.Bridge.Float.{Float32}
use elecraft_genius_bridge.Bridge.Amp.{AmpState, operate, standby}
use elecraft_genius_bridge.Kpa500.Response.{
  Amp, set_firmware, set_serial, set_operate, set_power, set_swr, parse_power_swr,
  parse_temperature, set_volts, set_current, parse_volts_current, parse_fault, parse_fault_speaker,
  parse_trimmed, parse_kpa500_response,
}
use elecraft_genius_bridge.Common.{
  ==_iff, Option-cases, Text, [], ap, arith, codes, eq_of_strip_prefix, false, if_let_cases, inl,
  inr, payload, refl, some, strip_prefix, strip_suffix_char, strip_suffix_char-append, text_eq,
  text_eq_iff, trim, true, ℕ, ◌++◌, ◌∙◌, ◌∷◌, ◌≡◌, ◌≢◌,
}

eq_of_strip_suffix :
    (d : ℕ) (t : Text) {u : Text} → strip_suffix_char d t ≡ some u → t ≡ u ++ d ∷ []
unfolding strip_suffix_char
eq_of_strip_suffix d [] {u} h = absurd (ground arith)
eq_of_strip_suffix d (c ∷ []) {u} h = ground (arith, ==_iff c d)
eq_of_strip_suffix d (c ∷ e ∷ t) {u} h = elim (Option-cases (strip_suffix_char d (e ∷ t))) [
  | inl n ↦ absurd (ground arith)
  | inr (v, n) ↦ let rest = eq_of_strip_suffix d (e ∷ t) n in ground arith
]

eq_of_payload :
    (prefix r : Text) {raw : Text} → payload prefix r ≡ some raw → r ≡ prefix ++ (raw ++ codes ";")
unfolding payload
eq_of_payload prefix r {raw} h = elim (Option-cases (strip_prefix prefix r)) [
  | inl n ↦ absurd (ground arith)
  | inr (v, n) ↦
      let suffix = eq_of_strip_suffix b';' v {u = raw} (ground arith) in
      eq_of_strip_prefix prefix r n ∙ ap (λ t. prefix ++ t) suffix
]

module _ (fl : Float32) where
  -- The flag is up only if the line raised it.
  record Raised (r : Text) (a : Amp fl) : Type 0 where
    line : a.operate ≡ true → r ≡ codes "^OS1;"

  untouched : (r : Text) (a b : Amp fl) → a.operate ≡ false → b.operate ≡ a.operate → Raised r b
  untouched r a b h e = record { line = λ k. absurd (ground arith) }

  set_operate-raised :
      (a : Amp fl) (raw : Text)
      → a.operate ≡ false
      → (set_operate fl a raw).operate ≡ true
      → raw ≡ codes "1"
  unfolding set_operate
  set_operate-raised a raw h k = ground (arith, text_eq_iff raw (codes "1"))

  set_firmware-operate : (a : Amp fl) (raw : Text) → (set_firmware fl a raw).operate ≡ a.operate
  unfolding set_firmware
  set_firmware-operate a raw = ground arith

  set_serial-operate : (a : Amp fl) (raw : Text) → (set_serial fl a raw).operate ≡ a.operate
  unfolding set_serial
  set_serial-operate a raw = ground arith

  parse_power_swr-operate :
      (a : Amp fl) (raw : Text) → (parse_power_swr fl a raw).operate ≡ a.operate
  unfolding parse_power_swr set_power set_swr
  parse_power_swr-operate a raw = ground arith

  parse_temperature-operate :
      (a : Amp fl) (raw : Text) → (parse_temperature fl a raw).operate ≡ a.operate
  unfolding parse_temperature
  parse_temperature-operate a raw = ground arith

  parse_volts_current-operate :
      (a : Amp fl) (raw : Text) → (parse_volts_current fl a raw).operate ≡ a.operate
  unfolding parse_volts_current set_volts set_current
  parse_volts_current-operate a raw = ground arith

  parse_fault-operate : (a : Amp fl) (raw : Text) → (parse_fault fl a raw).operate ≡ a.operate
  unfolding parse_fault
  parse_fault-operate a raw = ground arith

  parse_fault_speaker-operate :
      (a : Amp fl) (raw : Text) → (parse_fault_speaker fl a raw).operate ≡ a.operate
  unfolding parse_fault_speaker
  parse_fault_speaker-operate a raw = ground arith

  parse_trimmed-Raised :
      (r : Text) (a : Amp fl) → a.operate ≡ false → Raised r (parse_trimmed fl r a)
  unfolding parse_trimmed
  parse_trimmed-Raised r a h =
      if_let_cases (Raised r) _ _ _
        (λ raw e. untouched r a (set_firmware fl a raw) h (set_firmware-operate a raw))
        (if_let_cases (Raised r) _ _ _
          (λ raw e. untouched r a (set_serial fl a raw) h (set_serial-operate a raw))
          (if_let_cases (Raised r) _ _ _ (λ raw e. by_operate raw e)
            (if_let_cases (Raised r) _ _ _
              (λ raw e. untouched r a (parse_power_swr fl a raw) h (parse_power_swr-operate a raw))
              (if_let_cases (Raised r) _ _ _
                (λ raw e.
                  untouched r a (parse_temperature fl a raw) h (parse_temperature-operate a raw))
                (if_let_cases (Raised r) _ _ _
                  (λ raw e.
                    untouched r a (parse_volts_current fl a raw) h
                      (parse_volts_current-operate a raw))
                  (if_let_cases (Raised r) _ _ _
                    (λ raw e. untouched r a (parse_fault fl a raw) h (parse_fault-operate a raw))
                    (if_let_cases (Raised r) _ _ _
                      (λ raw e.
                        untouched r a (parse_fault_speaker fl a raw) h
                          (parse_fault_speaker-operate a raw))
                      (untouched r a a h refl))))))))
    where
      by_operate :
          (raw : Text) → payload (codes "^OS") r ≡ some raw → Raised r (set_operate fl a raw)
      by_operate raw e = record {
        line = λ k.
            let one = set_operate-raised a raw h k in rw one at (eq_of_payload (codes "^OS") r e);
      }

  -- Only one line does.
  pub parse_kpa500_response-raised :
      (response : Text) (a : AmpState (fl.Float))
      → a.operate ≡ false
      → (parse_kpa500_response fl response a).operate ≡ true
      → trim response ≡ codes "^OS1;"
  unfolding parse_kpa500_response
  parse_kpa500_response-raised response a h k = (parse_trimmed-Raised (trim response) a h).line k

  -- A line of the operating state is read as such.
  pub parse_kpa500_response-state :
      (response raw : Text) (a : AmpState (fl.Float))
      → trim response ≡ codes "^OS" ++ (raw ++ codes ";")
      → parse_kpa500_response fl response a ≡ set_operate fl a raw
  unfolding parse_kpa500_response parse_trimmed payload strip_prefix
  parse_kpa500_response-state response raw a h = rw (h, strip_suffix_char-append b';' raw) refl

  pub set_operate-one :
      (a : AmpState (fl.Float))
      → set_operate fl a (codes "1") ≡ record a { operate = true; state = operate }
  unfolding set_operate text_eq
  set_operate-one a = refl

  pub set_operate-other :
      (a : AmpState (fl.Float)) (raw : Text)
      → a.operate ≡ false
      → a.state ≡ standby
      → raw ≢ codes "1"
      → ((set_operate fl a raw).operate ≡ false) × ((set_operate fl a raw).state ≡ standby)
  unfolding set_operate
  set_operate-other a raw h k n = ground (arith, text_eq_iff raw (codes "1"))
