-- ===== src/Kat500/Echo/Exact.antt =====
-- What a confirmed and an unconfirmed exchange say about the lines that came in.
use elecraft_genius_bridge.Kat500.Frequency.{confirmed_khz_from_frequency_response}
use elecraft_genius_bridge.Kat500.Echo.{
  FrequencyFollowRead, Reading, confirms, is_echo, start, pass_over, read_echo,
  send_frequency_context_once_exact, send_frequency_context_confirmed, first_try, second_try,
  requested_khz_from_frequency_wire,
}
use elecraft_genius_bridge.Bridge.Serial.{done, Window, Port, Outcome-cases}
use elecraft_genius_bridge.Common.{
  ==_iff, All, Bool-cases, List, Option, Option-cases, Text, [], ap, arith, false, inl, inr, none,
  refl, some, true, ℕ, ◌↔◌, ◌∷◌, ◌≡◌, ◌⊎◌,
}

-- No line of the list echoes the frequency.
abbrev pub NoEcho : ℕ → List Text → Type 0
NoEcho khz lines =
    All (λ line. confirms khz (confirmed_khz_from_frequency_response line) ≡ false) lines

pass_over-is_echo :
    (wire response : Text) (k : ℕ) (r : Reading)
    → confirms k (confirmed_khz_from_frequency_response response) ≡ false
    → is_echo k (pass_over wire response r).last_response ≡ false
unfolding pass_over
pass_over-is_echo wire response k r h =
    elim (Option-cases (confirmed_khz_from_frequency_response response)) [
      | inl e ↦ ground arith
      | inr (khz, e) ↦ ground arith
    ]

-- The loop breaks off exactly at an echo, and only then is the last line one.
read_echo-cases :
    (wire : Text) (k : ℕ) (lines : List Text) (r : Reading)
    → is_echo k r.last_response ≡ false
    → let (end, broke) = read_echo wire k lines r in
      (is_echo k end.last_response ≡ broke) × ((broke ≡ false) ↔ NoEcho k lines)
unfolding read_echo
read_echo-cases wire k [] r h = (h, (λ e. tt, λ n. refl))
read_echo-cases wire k (response ∷ rest) r h =
    elim (Bool-cases (confirms k (confirmed_khz_from_frequency_response response))) [
      | inl e ↦ rw e (e, (λ q. cc, λ n. cc))
      | inr e ↦
          let (last, none_left) =
            read_echo-cases wire k rest (pass_over wire response r)
              (pass_over-is_echo wire response k r e) in
          rw e (last, (λ q. (refl, none_left.0 q), λ n. none_left.1 n.1))
    ]

confirms_iff : (k : ℕ) (o : Option ℕ) → (confirms k o ≡ true) ↔ (o ≡ some k)
confirms_iff k none = (λ e. cc, λ e. cc)
confirms_iff k (some n) = (λ e. ap some ((==_iff n k).0 e), λ e. ground (arith, ==_iff n k))

-- What one attempt that ends without an error found.
once :
    (port : Window) (wire : Text) (k : ℕ) {r : FrequencyFollowRead}
    → send_frequency_context_once_exact port wire k ≡ done r
    → (r.requested_khz ≡ k)
      × (r.retry_count ≡ 0)
      × ((r.confirmation_match ≡ true) → (r.confirmed_khz ≡ some k))
      × ((r.confirmation_match ≡ false) ↔ NoEcho k port.lines)
unfolding send_frequency_context_once_exact
once port wire k {r} h =
    let found = read_echo-cases wire k port.lines start refl in
    ground (arith, found, confirms_iff k r.confirmed_khz)

-- An exchange that ends without an error was confirmed by a line with exactly the requested frequency,
-- or neither of its two attempts received such a line. It tells the two apart rightly, counts a retry
-- exactly if the first attempt received no such line, and reads its frequency from the wire it sends.
pub send_frequency_context_confirmed-exact :
    (port : Port) (wire : Text) {r : FrequencyFollowRead}
    → send_frequency_context_confirmed port wire ≡ done r
    → let k = r.requested_khz in
      (requested_khz_from_frequency_wire wire ≡ some k)
      × ((r.confirmation_match ≡ true) → (r.confirmed_khz ≡ some k))
      × ((r.confirmation_match ≡ false) ↔ (NoEcho k port.first.lines × NoEcho k port.second.lines))
      × (((r.retry_count ≡ 0) × ¬ NoEcho k port.first.lines)
          ⊎ ((r.retry_count ≡ 1) × NoEcho k port.first.lines))
unfolding send_frequency_context_confirmed first_try second_try
send_frequency_context_confirmed-exact port wire {r} h =
    elim (Option-cases (requested_khz_from_frequency_wire wire)) [
      | inl e ↦ absurd (ground arith)
      | inr (k, e) ↦ elim (Outcome-cases (send_frequency_context_once_exact port.first wire k)) [
        | inl (m, f) ↦ absurd (ground arith)
        | inr (one, f) ↦
            let first = once port.first wire k f in
            elim (Outcome-cases (send_frequency_context_once_exact port.second wire k)) [
              | inl (m, q) ↦ ground (arith, first)
              | inr (two, q) ↦
                  let second = once port.second wire k q in ground (arith, first, second)
            ]
      ]
    ]
