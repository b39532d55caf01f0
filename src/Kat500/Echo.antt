-- ===== src/Kat500/Echo.antt =====
-- The exchange of one frequency context: `send_frequency_context_once_exact`, which waits for the exact
-- echo, and `send_frequency_context_confirmed`, which tries twice. The serial port is an argument: for
-- each attempt the lines that arrive before its deadline and the errors of writing and reading, and for
-- the two waits for quiet the number of lines that they drain.
pub mod Exact
use elecraft_genius_bridge.Bridge.Serial.{Outcome, failed, done, Window, Port, if_sent}
use elecraft_genius_bridge.Kat500.Frequency.{
  requested_khz_from_frequency_wire, confirmed_khz_from_frequency_response,
}
use elecraft_genius_bridge.Common.{
  Bool, List, Option, Text, [], codes, ends_with_char, false, if◌then◌else◌, none, saturating_add,
  some, starts_with, text_eq, true, ℕ, ◌&&◌, ◌++◌, ◌==◌, ◌||◌, ◌∷◌, any_prefix,
}

pub record FrequencyFollowRead : Type 0 where
  pub response : Text
  pub requested_khz : ℕ
  pub confirmed_khz : Option ℕ
  pub confirmation_match : Bool
  pub band_response : Option Text
  pub stale_response_count : ℕ
  pub retry_count : ℕ
  pub post_quiet_drained : ℕ

unfoldable pub is_unsolicited_response : Text → Bool
unfolding any_prefix
is_unsolicited_response response =
    any_prefix
      (codes "F"
        ∷ codes "VRFL"
        ∷ codes "ATTN"
        ∷ codes "AMPI"
        ∷ codes "BN"
        ∷ codes "VSWRB"
        ∷ codes "VSWR "
        ∷ codes "VFWD "
        ∷ codes "TP"
        ∷ codes "FLT"
        ∷ codes "AN"
        ∷ codes "BYP"
        ∷ codes "MD"
        ∷ codes "RV"
        ∷ codes "SN"
        ∷ [])
      response

-- `*khz == Some(requested_khz)`
abbrev pub confirms : ℕ → Option ℕ → Bool
confirms requested_khz none = false
confirms requested_khz (some khz) = khz == requested_khz

-- The variables of the loop.
pub record Reading : Type 0 where
  pub stale_response_count : ℕ
  pub last_response : Option (Text × Option ℕ)
  pub band_response : Option Text

abbrev pub start : Reading
start = record { stale_response_count = 0; last_response = none; band_response = none }

-- What the loop does with a line other than the echo.
unfoldable pub pass_over : Text → Text → Reading → Reading
pass_over wire response r = elim (confirmed_khz_from_frequency_response response) [
  | some khz ↦ record r {
    stale_response_count = saturating_add r.stale_response_count 1;
    last_response = some (response, some khz);
  }
  | none ↦ record r {
    last_response = some (response, none);
    band_response =
        if (is_unsolicited_response response || text_eq response wire)
          && starts_with (codes "BN") response
        then some response
        else r.band_response;
  }
]

-- The loop, up to the echo or to the end of the lines; whether it broke off at the echo.
unfoldable pub read_echo : Text → ℕ → List Text → Reading → Reading × Bool
unfolding pass_over
read_echo wire requested_khz [] r = (r, false)
read_echo wire requested_khz (response ∷ rest) r =
    let khz = confirmed_khz_from_frequency_response response in
    let (later, broke) = read_echo wire requested_khz rest (pass_over wire response r) in
    if confirms requested_khz khz
    then (record r { last_response = some (response, khz) }, true)
    else (later, broke)

-- `last_response.unwrap_or_else(…)`
abbrev pub or_timeout : Option (Text × Option ℕ) → Text × Option ℕ
or_timeout none = (codes "timeout_waiting_for_exact_f_echo", none)
or_timeout (some p) = p

-- `last_response.is_some_and(|(_, khz)| *khz == Some(requested_khz))`
abbrev pub is_echo : ℕ → Option (Text × Option ℕ) → Bool
is_echo requested_khz none = false
is_echo requested_khz (some p) = confirms requested_khz p.1

-- What the loop's variables say at its end.
abbrev pub conclude : ℕ → Reading → FrequencyFollowRead
conclude requested_khz r =
    let (response, confirmed_khz) = or_timeout r.last_response in
    record {
      response = response;
      requested_khz = requested_khz;
      confirmed_khz = confirmed_khz;
      confirmation_match = is_echo requested_khz r.last_response;
      band_response = r.band_response;
      stale_response_count = r.stale_response_count;
      retry_count = 0;
      post_quiet_drained = 0;
    }

-- A reading error ends the attempt unless the echo came first.
abbrev pub after_lines : ℕ → Bool → Reading × Bool → Outcome FrequencyFollowRead
after_lines requested_khz false s = done (conclude requested_khz s.0)
after_lines requested_khz true s =
    if s.1
    then done (conclude requested_khz s.0)
    else failed (codes "failed reading KAT500 frequency confirmation")

unfoldable pub send_frequency_context_once_exact : Window → Text → ℕ → Outcome FrequencyFollowRead
unfolding read_echo
send_frequency_context_once_exact port wire requested_khz =
    if_sent port.sending (codes "failed to write serial command set_frequency_context")
      (codes "failed to flush serial port")
      (after_lines requested_khz port.read_fails (read_echo wire requested_khz port.lines start))

second_try : Port → FrequencyFollowRead → Outcome FrequencyFollowRead → Outcome FrequencyFollowRead
second_try port one (failed e) = failed e
second_try port one (done two) =
    let stale =
      saturating_add
        (saturating_add (saturating_add port.drained_before one.stale_response_count) 1)
        two.stale_response_count in
    done (record two {
      stale_response_count = if two.confirmation_match then stale else saturating_add stale 1;
      retry_count = 1;
      post_quiet_drained = port.drained_after;
    })

first_try : Port → Text → ℕ → Outcome FrequencyFollowRead → Outcome FrequencyFollowRead
unfolding second_try
first_try port wire requested_khz (failed e) = failed e
first_try port wire requested_khz (done one) =
    if one.confirmation_match
    then done (record one {
      stale_response_count = saturating_add port.drained_before one.stale_response_count;
      post_quiet_drained = port.drained_after;
    })
    else second_try port one (send_frequency_context_once_exact port.second wire requested_khz)

unfoldable pub send_frequency_context_confirmed : Port → Text → Outcome FrequencyFollowRead
unfolding first_try
send_frequency_context_confirmed port wire = elim (requested_khz_from_frequency_wire wire) [
  | none ↦ failed (codes "invalid KAT500 frequency context wire " ++ wire)
  | some requested_khz ↦
      first_try port wire requested_khz
        (send_frequency_context_once_exact port.first wire requested_khz)
]
