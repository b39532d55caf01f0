-- ===== src/Kpa500/Band.antt =====
-- Following the radio's band: the wire that carries a band number, and the reading of its echo.
use elecraft_genius_bridge.Bridge.Band.{
  Band, unknown, m160, m80, m60, m40, m30, m20, m17, m15, m12, m10, m6,
}
use elecraft_genius_bridge.Common.{
  List, Option, Text, [], codes, inl, inr, none, parse_nat, refl, some, strip_prefix,
  strip_suffix_char, suc, u8_max, zero, ℕ, ◌++◌, ◌∷◌, ◌≡◌, ◌≢◌, ◌⊎◌,
}

band_number : Band → Option Text
band_number unknown = none
band_number m160 = some (codes "00")
band_number m80 = some (codes "01")
band_number m60 = some (codes "02")
band_number m40 = some (codes "03")
band_number m30 = some (codes "04")
band_number m20 = some (codes "05")
band_number m17 = some (codes "06")
band_number m15 = some (codes "07")
band_number m12 = some (codes "08")
band_number m10 = some (codes "09")
band_number m6 = some (codes "10")

unfoldable pub kpa_band_follow_wire : Band → Option Text
unfolding band_number
kpa_band_follow_wire band = elim (band_number band) [
  | none ↦ none
  | some number ↦ some (codes "^BN" ++ (number ++ codes ";"))
]

-- The number after the prefix.
after_prefix : Option Text → Option ℕ
after_prefix none = none
after_prefix (some value) = elim (strip_suffix_char b';' value) [
  | none ↦ none
  | some number ↦ parse_nat u8_max number
]

unfoldable pub requested_bn_from_band_wire : Text → Option ℕ
unfolding after_prefix
requested_bn_from_band_wire wire = after_prefix (strip_prefix (codes "^BN") wire)

unfoldable pub confirmed_bn_from_band_response : Text → Option ℕ
unfolding requested_bn_from_band_wire
confirmed_bn_from_band_response response = requested_bn_from_band_wire response

-- The bands in the order of their numbers.
abbrev pub bands : List Band
bands = m160 ∷ m80 ∷ m60 ∷ m40 ∷ m30 ∷ m20 ∷ m17 ∷ m15 ∷ m12 ∷ m10 ∷ m6 ∷ []

-- The band with a number.
abbrev pub nth : List Band → ℕ → Band
nth [] n = unknown
nth (b ∷ bs) zero = b
nth (b ∷ bs) (suc n) = nth bs n

-- Every band but the unknown one has a wire, whose number names that band and no other, and which the
-- echo repeats; the unknown band has none.
pub kpa_band_follow_wire_lem :
    (band : Band)
    → ((band ≡ unknown) × (kpa_band_follow_wire band ≡ none))
      ⊎ ((band ≢ unknown)
          × (wire : Text) × (bn : ℕ) × (kpa_band_follow_wire band ≡ some wire)
          × (requested_bn_from_band_wire wire ≡ some bn)
          × (confirmed_bn_from_band_response wire ≡ some bn)
          × (nth bands bn ≡ band))
unfolding kpa_band_follow_wire requested_bn_from_band_wire confirmed_bn_from_band_response
    strip_prefix strip_suffix_char parse_nat
kpa_band_follow_wire_lem unknown = inl (refl, refl)
kpa_band_follow_wire_lem m160 = inr (λ e. cc, _, 0, refl, refl, refl, refl)
kpa_band_follow_wire_lem m80 = inr (λ e. cc, _, 1, refl, refl, refl, refl)
kpa_band_follow_wire_lem m60 = inr (λ e. cc, _, 2, refl, refl, refl, refl)
kpa_band_follow_wire_lem m40 = inr (λ e. cc, _, 3, refl, refl, refl, refl)
kpa_band_follow_wire_lem m30 = inr (λ e. cc, _, 4, refl, refl, refl, refl)
kpa_band_follow_wire_lem m20 = inr (λ e. cc, _, 5, refl, refl, refl, refl)
kpa_band_follow_wire_lem m17 = inr (λ e. cc, _, 6, refl, refl, refl, refl)
kpa_band_follow_wire_lem m15 = inr (λ e. cc, _, 7, refl, refl, refl, refl)
kpa_band_follow_wire_lem m12 = inr (λ e. cc, _, 8, refl, refl, refl, refl)
kpa_band_follow_wire_lem m10 = inr (λ e. cc, _, 9, refl, refl, refl, refl)
kpa_band_follow_wire_lem m6 = inr (λ e. cc, _, 10, refl, refl, refl, refl)
