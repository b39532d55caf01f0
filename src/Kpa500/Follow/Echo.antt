-- ===== src/Kpa500/Follow/Echo.antt =====
-- What a confirmed and an unconfirmed exchange of a band say about the lines that came in.
use elecraft_genius_bridge.Bridge.Serial.{done, Window, Port, Outcome-cases}
use elecraft_genius_bridge.Kpa500.Band.{
  requested_bn_from_band_wire, confirmed_bn_from_band_response,
}
use elecraft_genius_bridge.Kpa500.Follow.{
  BandFollowConfirmation, Reading, confirms, count_stale, or_timeout, read_echo,
  send_band_follow_once_exact, first_try, second_try, send_band_follow_confirmed,
}
use elecraft_genius_bridge.Common.{
  ==_iff, All, Bool-cases, List, Option, Option-cases, Text, [], ap, arith, false, inl, inr, none,
  refl, some, true, ℕ, ◌↔◌, ◌∷◌, ◌≡◌, ◌⊎◌,
}

-- No line of the list echoes the band's number.
abbrev pub NoEcho : ℕ → List Text → Type 0
NoEcho bn lines = All (λ line. confirms bn (confirmed_bn_from_band_response line) ≡ false) lines

-- The loop breaks off exactly at an echo, and only then is the last line one.
read_echo-cases :
    (k : ℕ) (lines : List Text) (r : Reading)
    → confirms k (or_timeout r.1).1 ≡ false
    → let (end, broke) = read_echo k lines r in
      (confirms k (or_timeout end.1).1 ≡ broke) × ((broke ≡ false) ↔ NoEcho k lines)
unfolding read_echo
read_echo-cases k [] r h = (h, (λ e. tt, λ n. refl))
read_echo-cases k (response ∷ rest) r h =
    elim (Bool-cases (confirms k (confirmed_bn_from_band_response response))) [
      | inl e ↦ rw e (e, (λ q. cc, λ n. cc))
      | inr e ↦
          let bn = confirmed_bn_from_band_response response in
          let (last, none_left) =
            read_echo-cases k rest (count_stale r.0 bn, some (response, bn)) e in
          rw e (last, (λ q. (refl, none_left.0 q), λ n. none_left.1 n.1))
    ]

confirms_iff : (k : ℕ) (o : Option ℕ) → (confirms k o ≡ true) ↔ (o ≡ some k)
confirms_iff k none = (λ e. cc, λ e. cc)
confirms_iff k (some n) = (λ e. ap some ((==_iff n k).0 e), λ e. ground (arith, ==_iff n k))

-- What one attempt that ends without an error found.
once :
    (port : Window) (k : ℕ) {r : BandFollowConfirmation}
    → send_band_follow_once_exact port k ≡ done r
    → (r.requested_bn ≡ k)
      × (r.retry_count ≡ 0)
      × ((r.confirmation_match ≡ true) → (r.confirmed_bn ≡ some k))
      × ((r.confirmation_match ≡ false) ↔ NoEcho k port.lines)
unfolding send_band_follow_once_exact
once port k {r} h =
    let found = read_echo-cases k port.lines (0, none) refl in
    ground (arith, found, confirms_iff k r.confirmed_bn)

-- An exchange that ends without an error was confirmed by a line with exactly the requested band, or
-- neither of its two attempts received such a line. It tells the two apart rightly, counts a retry
-- exactly if the first attempt received no such line, and reads its number from the wire it sends.
pub send_band_follow_confirmed-exact :
    (port : Port) (wire : Text) {r : BandFollowConfirmation}
    → send_band_follow_confirmed port wire ≡ done r
    → let k = r.requested_bn in
      (requested_bn_from_band_wire wire ≡ some k)
      × ((r.confirmation_match ≡ true) → (r.confirmed_bn ≡ some k))
      × ((r.confirmation_match ≡ false) ↔ (NoEcho k port.first.lines × NoEcho k port.second.lines))
      × (((r.retry_count ≡ 0) × ¬ NoEcho k port.first.lines)
          ⊎ ((r.retry_count ≡ 1) × NoEcho k port.first.lines))
unfolding send_band_follow_confirmed first_try second_try
send_band_follow_confirmed-exact port wire {r} h =
    elim (Option-cases (requested_bn_from_band_wire wire)) [
      | inl e ↦ absurd (ground arith)
      | inr (k, e) ↦ elim (Outcome-cases (send_band_follow_once_exact port.first k)) [
        | inl (m, f) ↦ absurd (ground arith)
        | inr (one, f) ↦
            let first = once port.first k f in
            elim (Outcome-cases (send_band_follow_once_exact port.second k)) [
              | inl (m, q) ↦ ground (arith, first)
              | inr (two, q) ↦ let second = once port.second k q in ground (arith, first, second)
            ]
      ]
    ]
