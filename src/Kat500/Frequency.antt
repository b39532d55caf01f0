-- ===== src/Kat500/Frequency.antt =====
-- The frequency context: the wire that carries a frequency in kHz, and the reading of its echo.
use elecraft_genius_bridge.Common.{
  Bool, Option, Text, codes, if◌then◌else◌, leb, none, parse_nat, show_nat, some, strip_prefix,
  trim, trim_end_matches, u64_max, ℕ, ◌&&◌, ◌++◌, ◌+◌, ◌/◌, ◌==◌, All, IsDigit, NoneIn, [], arith,
  is_digit, is_whitespace, ◌∷◌, ◌≡◌, ◌≤◌, All-append, Bool-cases, inl, inr, is_some,
  parse_nat-show_nat, refl, show_nat_digits, trim-blank, trim_end_matches-append_dropped,
  trim_end_matches_none, trim_kept, trim_none, true, ◌*◌, ◌<◌, ◌∙◌, ◌≢◌, ◌⊎◌,
}
use elecraft_genius_bridge.Bridge.Band.{from_frequency_hz, unknown}

unfoldable pub frequency_hz_to_khz : ℕ → ℕ
frequency_hz_to_khz frequency_hz = (frequency_hz + 500) / 1000

unfoldable pub frequency_context_wire : Option ℕ → Option Text
unfolding frequency_hz_to_khz
frequency_context_wire none = none
frequency_context_wire (some hz) =
    if leb 1800000 hz && leb hz 54000000
    then some (codes "F " ++ (show_nat (frequency_hz_to_khz hz) ++ codes ";"))
    else none

abbrev is_semicolon : ℕ → Bool
is_semicolon c = c == b';'

after_marker : Text → Option ℕ
after_marker value = parse_nat u64_max (trim (trim_end_matches is_semicolon (trim value)))

unfoldable pub requested_khz_from_frequency_wire : Text → Option ℕ
unfolding after_marker
requested_khz_from_frequency_wire wire = elim (strip_prefix (codes "F") (trim wire)) [
  | none ↦ none
  | some value ↦ after_marker value
]

unfoldable pub confirmed_khz_from_frequency_response : Text → Option ℕ
unfolding requested_khz_from_frequency_wire
confirmed_khz_from_frequency_response response = requested_khz_from_frequency_wire response

digits-NoneIn : (t : Text) → All IsDigit t → NoneIn is_whitespace t × NoneIn is_semicolon t
unfolding is_digit is_whitespace
digits-NoneIn [] h = (tt, tt)
digits-NoneIn (c ∷ t) h =
    let (spaces, semicolons) = digits-NoneIn t h.1 in
    ((ground arith, spaces), (ground arith, semicolons))

-- The number between the marker and the semicolon, with a blank before it.
after_marker-show_nat :
    (n : ℕ) → n ≤ u64_max → after_marker (b' ' ∷ (show_nat n ++ codes ";")) ≡ some n
unfolding after_marker
after_marker-show_nat n h =
    let digits = show_nat n in
    let (spaces, semicolons) = digits-NoneIn digits (show_nat_digits n) in
    let whole =
      trim-blank (digits ++ codes ";")
      ∙ trim_none (digits ++ codes ";")
          (All-append _ digits (codes ";") spaces (unfold is_whitespace in (refl, tt))) in
    let number =
      trim_end_matches-append_dropped is_semicolon digits (codes ";")
        (unfold trim_end_matches in refl)
      ∙ trim_end_matches_none is_semicolon digits semicolons in
    rw (whole, number, trim_none digits spaces) (parse_nat-show_nat u64_max n h)

requested_khz-wire :
    (n : ℕ)
    → n ≤ u64_max
    → requested_khz_from_frequency_wire (codes "F " ++ (show_nat n ++ codes ";")) ≡ some n
unfolding requested_khz_from_frequency_wire
requested_khz-wire n h =
    let kept : trim (codes "F " ++ (show_nat n ++ codes ";"))
        ≡ codes "F " ++ (show_nat n ++ codes ";") =
      trim_kept b'F' (b' ' ∷ show_nat n) b';' (unfold is_whitespace in refl)
        (unfold is_whitespace in refl) in
    rw (kept, requested_khz_from_frequency_wire) (unfold strip_prefix in after_marker-show_nat n h)

-- In the KAT500's range every frequency has a wire, and both the requested and the echoed number read
-- back from it are the frequency rounded to the nearest kHz. Outside it there is none.
pub frequency_context_wire_lem :
    (hz : ℕ)
    → let khz = frequency_hz_to_khz hz in
      ((1800000 ≤ hz)
        × (hz ≤ 54000000)
        × (wire : Text) × (frequency_context_wire (some hz) ≡ some wire)
        × (requested_khz_from_frequency_wire wire ≡ some khz)
        × (confirmed_khz_from_frequency_response wire ≡ some khz)
        × (1000 * khz ≤ hz + 500)
        × (hz < 1000 * khz + 500))
      ⊎ (((hz < 1800000) ⊎ (54000000 < hz)) × (frequency_context_wire (some hz) ≡ none))
unfolding frequency_context_wire confirmed_khz_from_frequency_response
frequency_context_wire_lem hz = elim (Bool-cases (leb 1800000 hz && leb hz 54000000)) [
  | inl h ↦
      let khz = frequency_hz_to_khz hz in
      let echo = requested_khz-wire khz (unfold frequency_hz_to_khz in ground arith) in
      inl (
        ground arith,
        ground arith,
        codes "F " ++ (show_nat khz ++ codes ";"),
        rw h,
        echo,
        echo,
        unfold frequency_hz_to_khz in omega arith,
        unfold frequency_hz_to_khz in omega arith,
      )
  | inr h ↦ inr (ground arith, rw h)
]

-- Two frequencies have the same wire only if they round to the same kHz, so an unchanged wire means an
-- unchanged request.
pub frequency_context_wire_injective :
    (a b : ℕ) (wire : Text)
    → frequency_context_wire (some a) ≡ some wire
    → frequency_context_wire (some b) ≡ some wire
    → frequency_hz_to_khz a ≡ frequency_hz_to_khz b
frequency_context_wire_injective a b wire p q =
    ground (arith, frequency_context_wire_lem a, frequency_context_wire_lem b)

-- Every frequency inside a known amateur band has a wire.
pub frequency_context_wire_of_band :
    (hz : ℕ) → from_frequency_hz hz ≢ unknown → is_some (frequency_context_wire (some hz)) ≡ true
unfolding frequency_context_wire from_frequency_hz
frequency_context_wire_of_band hz h = ground arith
