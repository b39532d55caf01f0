-- ===== src/Kat500/Response/Tuning.antt =====
-- Which lines change the tuner's `tuning` flag. The flag holds back frequency changes, so a line that
-- cleared it by mistake would let one through during a tune.
use elecraft_genius_bridge.Bridge.Float.{Float32}
use elecraft_genius_bridge.Kat500.Response.{
  trimmed, Tuner, set_antenna, set_mode, set_fault, parse_vswr, set_forward, set_band,
  parse_trimmed, set_firmware, set_tuning, parse_kat500_response, set_serial, set_frequency,
  parse_trimmed_cases,
}
use elecraft_genius_bridge.Common.{
  Option-cases, Text, [], ap, arith, codes, eq_of_strip_prefix, inl, inr, some, strip_prefix,
  strip_suffix_char, ℕ, ◌++◌, ◌∙◌, ◌∷◌, ◌≡◌, false, refl, text_eq, text_eq_iff, trim, true, ◌≢◌,
  ◌⊎◌, Text-cases, payload,
}

eq_of_strip_suffix_char :
    (d : ℕ) (t : Text) {u : Text} → strip_suffix_char d t ≡ some u → t ≡ u ++ d ∷ []
unfolding strip_suffix_char
eq_of_strip_suffix_char d [] h = cc
eq_of_strip_suffix_char d (c ∷ []) h = ground arith
eq_of_strip_suffix_char d (c ∷ e ∷ t) {u} h = elim (Option-cases (strip_suffix_char d (e ∷ t))) [
  | inl n ↦ absurd (ground arith)
  | inr (v, n) ↦ ground (arith, eq_of_strip_suffix_char d (e ∷ t) {u = v} n)
]

pub eq_of_payload :
    (prefix r : Text) {raw : Text} → payload prefix r ≡ some raw → r ≡ prefix ++ (raw ++ codes ";")
unfolding payload
eq_of_payload prefix r {raw} h = elim (Option-cases (strip_prefix prefix r)) [
  | inl n ↦ absurd (ground arith)
  | inr (v, n) ↦
      eq_of_strip_prefix prefix r n
      ∙ ap (λ t. prefix ++ t) (eq_of_strip_suffix_char b';' v {u = raw} (ground arith))
]

module _ (fl : Float32) where
  set_tuning-tuning :
      (t : Tuner fl) (r raw : Text)
      → r ≢ codes "TP0;"
      → r ≢ codes "TP1;"
      → payload (codes "TP") r ≡ some raw
      → (set_tuning fl t raw).tuning ≡ t.tuning
  unfolding set_tuning
  set_tuning-tuning t r raw n m e =
      let shape = eq_of_payload (codes "TP") r e in
      ground (
        arith,
        text_eq_iff raw (codes "0"),
        text_eq_iff raw (codes "1"),
        λ (q : raw ≡ codes "0"). n (rw q at shape),
        λ (q : raw ≡ codes "1"). m (rw q at shape),
      )

  keeps_tuning :
      (t : Tuner fl) (r : Text)
      → r ≢ codes "TP0;"
      → r ≢ codes "TP1;"
      → (parse_trimmed fl r t).tuning ≡ t.tuning
  unfolding set_firmware set_serial set_antenna set_mode set_fault parse_vswr set_forward
      set_frequency set_band
  keeps_tuning t r n m =
      parse_trimmed_cases fl (λ u. u.tuning ≡ t.tuning) r t
        record {
          other = refl;
          firmware = λ raw. ground arith;
          serial = λ raw. ground arith;
          antenna = λ raw. ground arith;
          bypass_on = refl;
          bypass_off = refl;
          mode = λ raw. ground arith;
          tuned = λ raw. set_tuning-tuning t r raw n m;
          fault = λ raw. ground arith;
          vswr = λ raw. ground arith;
          forward = λ raw. ground arith;
          frequency = λ raw. ground arith;
          band = λ raw. ground arith;
        }

  tuning_on : (t : Tuner fl) → (parse_trimmed fl (codes "TP1;") t).tuning ≡ true
  unfolding parse_trimmed set_tuning payload strip_prefix strip_suffix_char text_eq
  tuning_on t = refl

  tuning_off : (t : Tuner fl) → (parse_trimmed fl (codes "TP0;") t).tuning ≡ false
  unfolding parse_trimmed set_tuning payload strip_prefix strip_suffix_char text_eq
  tuning_off t = refl

  -- The line TP0; clears the tuning flag, the line TP1; sets it, and no other line touches it.
  pub parse_kat500_response-tuning :
      (response : Text) (t : Tuner fl)
      → let u = parse_kat500_response fl response t in
        ((trim response ≡ codes "TP0;") × (u.tuning ≡ false))
        ⊎ ((trim response ≡ codes "TP1;") × (u.tuning ≡ true))
        ⊎ ((trim response ≢ codes "TP0;") × (trim response ≢ codes "TP1;") × (u.tuning ≡ t.tuning))
  parse_kat500_response-tuning response t = elim (Text-cases (trim response) (codes "TP0;")) [
    | inl e ↦ inl (e, rw (trimmed fl response t) (rw e (tuning_off t)))
    | inr n ↦ inr (elim (Text-cases (trim response) (codes "TP1;")) [
      | inl e ↦ inl (e, rw (trimmed fl response t) (rw e (tuning_on t)))
      | inr m ↦ inr (n, m, rw (trimmed fl response t) (keeps_tuning t (trim response) n m))
    ])
  ]
